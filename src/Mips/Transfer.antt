-- ===== src/Mips/Transfer.antt =====
-- machine/mipssim.cc, the loads and stores of OneInstruction, as the Makefiles build them, with
-- SIM_FIX.
use nachos_project_2_os_subj.Base.{
  ℕ, ◌+◌, ◌-◌, ◌*◌, ◌/◌, ◌%◌, ◌^◌, Bool, not, ◌&&◌, ◌==◌, leb, u32, none, some, Result, ok, ◌>>=◌,
  if◌then◌else◌,
}
use nachos_project_2_os_subj.Machine.{Machine, address_error, load_reg, load_value_reg}
use nachos_project_2_os_subj.Machine.Memory.{read_mem, write_mem}
use nachos_project_2_os_subj.Mips.{Instruction, Stepped, goes_on, returns, goes, raises}

-- The address of an instruction.
abbrev pub address : Machine → Instruction → ℕ
address m i = u32 (m.registers i.rs + i.extra)

-- ReadMem with the rest of the case.
unfoldable pub reading : Machine → (addr size : ℕ) → (ℕ → Machine → Result Stepped) → Result Stepped
reading m addr size rest =
    read_mem m addr size >>= λ r. elim r.0 [ none ↦ ok (returns r.1) | some value ↦ rest value r.1 ]

unfoldable pub writing : Machine → (addr size value pc : ℕ) → Result Stepped
writing m addr size value pc =
    write_mem m addr size value >>= λ r. if r.0 then goes r.1 pc else ok (returns r.1)

-- LB and LBU
unfoldable pub load_byte : (signed : Bool) → Machine → Instruction → ℕ → Result Stepped
load_byte signed m i pc = reading m (address m i) 1 λ value m'.
    let byte = value % 2 ^ 8 in
    ok (goes_on m' pc i.rt (if leb (2 ^ 7) byte && signed then byte + 2 ^ 32 - 2 ^ 8 else byte))

-- LH and LHU
unfoldable pub load_half : (signed : Bool) → Machine → Instruction → ℕ → Result Stepped
load_half signed m i pc =
    if address m i % 2 == 1
    then raises m address_error (address m i)
    else reading m (address m i) 2 λ value m'.
      let half = value % 2 ^ 16 in
      ok (goes_on m' pc i.rt (if leb (2 ^ 15) half && signed then half + 2 ^ 32 - 2 ^ 16 else half))

-- LW
unfoldable pub load_word : Machine → Instruction → ℕ → Result Stepped
load_word m i pc =
    if not (address m i % 4 == 0)
    then raises m address_error (address m i)
    else reading m (address m i) 4 λ value m'. ok (goes_on m' pc i.rt value)

-- What LWL and LWR change: the register, or the load that is on its way to it.
abbrev pub pending : Machine → Instruction → ℕ
pending m i = if m.registers load_reg == i.rt then m.registers load_value_reg else m.registers i.rt

unfoldable pub merge_left : (shift value old : ℕ) → ℕ
merge_left shift value old =
    if shift == 0
    then value
    else if shift == 1
    then u32 (value * 2 ^ 8) + old % 2 ^ 8
    else if shift == 2
    then u32 (value * 2 ^ 16) + old % 2 ^ 16
    else u32 (value * 2 ^ 24) + old % 2 ^ 24

unfoldable pub merge_right : (shift value old : ℕ) → ℕ
merge_right shift value old =
    if shift == 0
    then old / 2 ^ 8 * 2 ^ 8 + value / 2 ^ 24
    else if shift == 1
    then old / 2 ^ 16 * 2 ^ 16 + value / 2 ^ 16
    else if shift == 2
    then old / 2 ^ 24 * 2 ^ 24 + value / 2 ^ 8
    else value

-- LWL and LWR
unfoldable pub load_left : Machine → Instruction → ℕ → Result Stepped
load_left m i pc =
    let byte = address m i % 4 in
    reading m (address m i - byte) 4
      λ value m'. ok (goes_on m' pc i.rt (merge_left (3 - byte) value (pending m' i)))

unfoldable pub load_right : Machine → Instruction → ℕ → Result Stepped
load_right m i pc =
    let byte = address m i % 4 in
    reading m (address m i - byte) 4
      λ value m'. ok (goes_on m' pc i.rt (merge_right (3 - byte) value (pending m' i)))

-- SB, SH and SW
unfoldable pub store_sized : (size : ℕ) → Machine → Instruction → ℕ → Result Stepped
store_sized size m i pc = writing m (address m i) size (m.registers i.rt) pc

unfoldable pub split_left : (shift value register : ℕ) → ℕ
split_left shift value register =
    if shift == 0
    then register
    else if shift == 1
    then value / 2 ^ 24 * 2 ^ 24 + register / 2 ^ 8
    else if shift == 2
    then value / 2 ^ 16 * 2 ^ 16 + register / 2 ^ 16
    else value / 2 ^ 8 * 2 ^ 8 + register / 2 ^ 24

unfoldable pub split_right : (shift value register : ℕ) → ℕ
split_right shift value register =
    if shift == 0
    then u32 (register * 2 ^ 24) + value % 2 ^ 24
    else if shift == 1
    then u32 (register * 2 ^ 16) + value % 2 ^ 16
    else if shift == 2
    then u32 (register * 2 ^ 8) + value % 2 ^ 8
    else register

-- SWL and SWR
unfoldable pub store_left : Machine → Instruction → ℕ → Result Stepped
store_left m i pc =
    let byte = address m i % 4 in
    reading m (address m i - byte) 4 λ value m'.
      writing m' (address m i - byte) 4 (split_left (3 - byte) value (m'.registers i.rt)) pc

unfoldable pub store_right : Machine → Instruction → ℕ → Result Stepped
store_right m i pc =
    let byte = address m i % 4 in
    reading m (address m i - byte) 4 λ value m'.
      writing m' (address m i - byte) 4 (split_right (3 - byte) value (m'.registers i.rt)) pc
