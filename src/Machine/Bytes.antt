-- ===== src/Machine/Bytes.antt =====
-- Little-endian loads and stores on physical memory.
use nachos_project_2_os_subj.Base.{
  ℕ, ◌+◌, ◌*◌, ◌%◌, ◌^◌, ◌≤◌, ◌<◌, ◌≡◌, arith, ◌⊎◌, inl, inr, ok, if◌then◌else◌, ◌==◌,
}
use nachos_project_2_os_subj.Machine.Memory.{load, store, sign_extend, store1, store2, store4}
use nachos_project_2_os_subj.Machine.Bounds.{IsSize}

-- What is left of an `int` in 1, 2 and 4 bytes of memory, read back.
abbrev pub narrowed : ℕ → ℕ → ℕ
narrowed s v = if s == 1 then sign_extend (v % 256) else if s == 2 then v % 256 ^ 2 else v % 256 ^ 4

pub record Stores (memory : ℕ → ℕ) (a s v : ℕ) : Type 0 where
  pub memory' : ℕ → ℕ
  pub stored : store memory a s v ≡ ok memory'
  pub back : load memory' a s ≡ ok (narrowed s v)
  pub same : (j : ℕ) → (j < a) ⊎ (a + s ≤ j) → memory' j ≡ memory j
  pub bytes : (j : ℕ) → ((k : ℕ) → memory k < 256) → memory' j < 256

pub store_lem : (memory : ℕ → ℕ) (a s v : ℕ) → IsSize s → Stores memory a s v
unfolding store load
store_lem memory a s v (inl e) = record {
  memory' = store1 memory a v;
  stored = rw e;
  back = rw e (ground arith);
  same = λ j h. ground arith;
  bytes = λ j h. ground (arith, h j);
}
store_lem memory a s v (inr (inl e)) = record {
  memory' = store2 memory a v;
  stored = rw e;
  back = rw e (ground arith);
  same = λ j h. ground arith;
  bytes = λ j h. ground (arith, h j);
}
store_lem memory a s v (inr (inr e)) = record {
  memory' = store4 memory a v;
  stored = rw e;
  back = rw e (ground arith);
  same = λ j h. ground arith;
  bytes = λ j h. ground (arith, h j);
}

-- A load reads the bytes of its range only.
pub load_local :
    (f g : ℕ → ℕ) (a s : ℕ)
    → IsSize s
    → ((k : ℕ) → k < s → f (a + k) ≡ g (a + k))
    → load f a s ≡ load g a s
unfolding load
load_local f g a s (inl e) h = rw e (ground (arith, h 0))
load_local f g a s (inr (inl e)) h = rw e (ground (arith, h 0, h 1))
load_local f g a s (inr (inr e)) h = rw e (ground (arith, h 0, h 1, h 2, h 3))

pub load_total : (f : ℕ → ℕ) (a s : ℕ) → IsSize s → (v : ℕ) × (load f a s ≡ ok v)
unfolding load
load_total f a s (inl e) = (sign_extend (f a), rw e)
load_total f a s (inr (inl e)) = (f a + 256 * f (a + 1), rw e)
load_total f a s (inr (inr e)) =
    (f a + 256 * f (a + 1) + 256 ^ 2 * f (a + 2) + 256 ^ 3 * f (a + 3), rw e)
