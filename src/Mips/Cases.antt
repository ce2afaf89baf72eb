-- ===== src/Mips/Cases.antt =====
-- What the groups of instructions leave of the bounds of registers and memory.
use nachos_project_2_os_subj.Base.{
  ℕ, ◌/◌, ◌%◌, ◌^◌, ◌<◌, ◌≡◌, ◌≢◌, refl, arith, Bool, true, ◌&&◌, not, ◌==◌, inl, inr, Result, ok,
  deref, get_elem?, bad_division, minus_one,
}
use native.Mathlib.Nat.{div-le_self, mod-le}
use nachos_project_2_os_subj.Machine.{
  Machine, ExceptionType, no_exception, address_error, load_reg, load_value_reg, hi_reg, lo_reg,
}
use nachos_project_2_os_subj.Machine.Bounds.{IsSize}
use nachos_project_2_os_subj.Machine.RoundTrip.{raise-halts}
use nachos_project_2_os_subj.UserMemory.Post.{Post, comes, fails, Post-bind, Post-any, Post-if}
use nachos_project_2_os_subj.Mips.{
  op_table, code_of, Format, i_format, j_format, r_format, extra_of, Instruction, decode, Stepped,
  goes_on, returns, system_call, goes, sets, raises,
}
use nachos_project_2_os_subj.Mips.Divide.{
  set_hi_lo, div_signed, div_unsigned, signed_quotient, signed_remainder,
}
use nachos_project_2_os_subj.Mips.Mult.{magnitude}
use nachos_project_2_os_subj.Mips.Transfer.{
  address, pending, reading, writing, load_byte, load_half, load_word, load_left, load_right,
  store_sized, store_left, store_right, merge_left, merge_right,
}
use nachos_project_2_os_subj.Mips.Bounds.{Words, read_mem-Words, write_mem-Words, set_reg-Words}

-- A decoded instruction: its registers exist, and its constant is a word.
pub record Fields (i : Instruction) : Type 0 where
  pub rs : i.rs < 32
  pub rt : i.rt < 32
  pub rd : i.rd < 32
  pub extra : i.extra < 2 ^ 32

extra_bound : (f : Format) (value : ℕ) → extra_of f value < 2 ^ 32
unfolding extra_of
extra_bound i_format value = ground arith
extra_bound j_format value = omega arith
extra_bound r_format value = omega arith

pub decode-Fields : (value : ℕ) → Post Fields (decode value)
unfolding decode
decode-Fields value =
    let rs : value / 2 ^ 21 % 2 ^ 5 < 32 = omega arith in
    let rt : value / 2 ^ 16 % 2 ^ 5 < 32 = omega arith in
    let rd : value / 2 ^ 11 % 2 ^ 5 < 32 = omega arith in
    Post-any (deref (get_elem? op_table (value / 2 ^ 26 % 2 ^ 6))) _ λ entry.
      Post-any (code_of entry.0 value) _
        λ code. comes _ (record { rs = rs; rt = rt; rd = rd; extra = extra_bound entry.1 value })

pub record Sound (m : Machine) : Type 0 where
  pub words : Words m
  pub zero : m.registers 0 ≡ 0

unfoldable pub Fits : Stepped → Type 0
Fits (goes_on m pc reg value) = Words m × (pc < 2 ^ 32) × (reg < 32) × (value < 2 ^ 32)
Fits (returns m) = Sound m
Fits (system_call m) = Sound m

pub raises-Fits :
    (m : Machine) (which : ExceptionType) (a : ℕ)
    → which ≢ no_exception
    → Post Fits (raises m which a)
raises-Fits m which a n = rw (raise-halts m which a n) (fails _)

pub goes-Fits : (m : Machine) (pc : ℕ) → Words m → pc < 2 ^ 32 → Post Fits (goes m pc)
unfolding Fits
goes-Fits m pc w h = comes _ (w, h, omega arith, omega arith)

pub sets-Fits :
    (m : Machine) (pc i v : ℕ)
    → Words m
    → pc < 2 ^ 32
    → i < load_reg
    → v < 2 ^ 32
    → Post Fits (sets m pc i v)
sets-Fits m pc i v w h k l = goes-Fits _ pc (set_reg-Words m i v w (omega arith) l) h

reading-Fits :
    (m : Machine) (a s : ℕ) (rest : ℕ → Machine → Result Stepped)
    → Words m
    → IsSize s
    → ((v : ℕ) (m' : Machine) → v < 2 ^ 32 → Words m' → Post Fits (rest v m'))
    → Post Fits (reading m a s rest)
unfolding reading
reading-Fits m a s rest w z k =
    Post-bind (read_mem-Words m a s w z) λ r (v, e, h, w'). rw e (k v r.1 h w')

writing-Fits :
    (m : Machine) (a s v pc : ℕ) → Words m → IsSize s → pc < 2 ^ 32 → Post Fits (writing m a s v pc)
unfolding writing
writing-Fits m a s v pc w z h =
    Post-bind (write_mem-Words m a s v w z) λ r (e, w'). rw e (goes-Fits r.1 pc w' h)

merge_left_bound : (shift v old : ℕ) → v < 2 ^ 32 → merge_left shift v old < 2 ^ 32
unfolding merge_left
merge_left_bound shift v old h = ground arith

merge_right_bound : (shift v old : ℕ) → v < 2 ^ 32 → old < 2 ^ 32 → merge_right shift v old < 2 ^ 32
unfolding merge_right
merge_right_bound shift v old h k = ground arith

pending_bound : (m : Machine) (i : Instruction) → Words m → pending m i < 2 ^ 32
pending_bound m i w = ground (arith, w.registers load_value_reg, w.registers i.rt)

div_bound : (a b : ℕ) → a < 2 ^ 32 → a / b < 2 ^ 32
div_bound a b h = omega (arith, div-le_self a b)

mod_bound : (a b : ℕ) → a < 2 ^ 32 → a % b < 2 ^ 32
mod_bound a b h = omega (arith, mod-le a b)

magnitude_bound : (signed : Bool) (a : ℕ) → a < 2 ^ 32 → magnitude signed a < 2 ^ 32
magnitude_bound signed a h = ground arith

signed_quotient_bound : (a b : ℕ) → a < 2 ^ 32 → signed_quotient a b < 2 ^ 32
unfolding signed_quotient
signed_quotient_bound a b h =
    let q = div_bound (magnitude true a) (magnitude true b) (magnitude_bound true a h) in
    ground arith

signed_remainder_bound : (a b : ℕ) → a < 2 ^ 32 → signed_remainder a b < 2 ^ 32
unfolding signed_remainder
signed_remainder_bound a b h =
    let r = mod_bound (magnitude true a) (magnitude true b) (magnitude_bound true a h) in
    ground arith

module _ (m : Machine) (i : Instruction) (pc : ℕ) (w : Words m) (f : Fields i)
    (h : pc < 2 ^ 32) where
  -- A delayed load of the register rt.
  loads : (m' : Machine) (v : ℕ) → Words m' → v < 2 ^ 32 → Post Fits (ok (goes_on m' pc i.rt v))
  unfolding Fits
  loads m' v w' k = comes _ (w', h, f.rt, k)

  pub load_byte-Fits : (signed : Bool) → Post Fits (load_byte signed m i pc)
  unfolding load_byte
  load_byte-Fits signed =
      reading-Fits m (address m i) 1 _ w (inl refl) λ v m' k w'. loads m' _ w' (ground arith)

  pub load_half-Fits : (signed : Bool) → Post Fits (load_half signed m i pc)
  unfolding load_half
  load_half-Fits signed =
      Post-if (address m i % 2 == 1) _ _ (raises-Fits m address_error (address m i) λ e. cc) (
        reading-Fits m (address m i) 2 _ w (inr (inl refl))
          λ v m' k w'. loads m' _ w' (ground arith))

  pub load_word-Fits : Post Fits (load_word m i pc)
  unfolding load_word
  load_word-Fits =
      Post-if (not (address m i % 4 == 0)) _ _ (raises-Fits m address_error (address m i) λ e. cc)
        (reading-Fits m (address m i) 4 _ w (inr (inr refl)) λ v m' k w'. loads m' _ w' k)

  pub load_left-Fits : Post Fits (load_left m i pc)
  unfolding load_left
  load_left-Fits =
      reading-Fits m _ 4 _ w (inr (inr refl))
        λ v m' k w'. loads m' _ w' (merge_left_bound _ v (pending m' i) k)

  pub load_right-Fits : Post Fits (load_right m i pc)
  unfolding load_right
  load_right-Fits =
      reading-Fits m _ 4 _ w (inr (inr refl))
        λ v m' k w'. loads m' _ w' (merge_right_bound _ v _ k (pending_bound m' i w'))

  pub store_sized-Fits : (s : ℕ) → IsSize s → Post Fits (store_sized s m i pc)
  unfolding store_sized
  store_sized-Fits s z = writing-Fits m _ s _ pc w z h

  pub store_left-Fits : Post Fits (store_left m i pc)
  unfolding store_left
  store_left-Fits =
      reading-Fits m _ 4 _ w (inr (inr refl))
        λ v m' k w'. writing-Fits m' _ 4 _ pc w' (inr (inr refl)) h

  pub store_right-Fits : Post Fits (store_right m i pc)
  unfolding store_right
  store_right-Fits =
      reading-Fits m _ 4 _ w (inr (inr refl))
        λ v m' k w'. writing-Fits m' _ 4 _ pc w' (inr (inr refl)) h

  pub set_hi_lo-Fits :
      (hi lo : ℕ) → hi < 2 ^ 32 → lo < 2 ^ 32 → Post Fits (goes (set_hi_lo m hi lo) pc)
  set_hi_lo-Fits hi lo k l =
      sets-Fits _ pc hi_reg hi (set_reg-Words m lo_reg lo w (omega arith) l) h (omega arith) k

  pub div_signed-Fits : Post Fits (div_signed m i pc)
  unfolding div_signed
  div_signed-Fits =
      let a = m.registers i.rs in
      let b = m.registers i.rt in
      Post-if (b == 0) _ _ (set_hi_lo-Fits 0 0 (omega arith) (omega arith)) (
        Post-if (a == 2 ^ 31 && b == minus_one) _ _ (fails bad_division) (
          set_hi_lo-Fits _ _ (signed_remainder_bound a b (w.registers i.rs))
            (signed_quotient_bound a b (w.registers i.rs))))

  pub div_unsigned-Fits : Post Fits (div_unsigned m i pc)
  unfolding div_unsigned
  div_unsigned-Fits =
      let a = m.registers i.rs in
      let b = m.registers i.rt in
      Post-if (b == 0) _ _ (set_hi_lo-Fits 0 0 (omega arith) (omega arith))
        (set_hi_lo-Fits _ _ (mod_bound a b (w.registers i.rs)) (div_bound a b (w.registers i.rs)))
