-- ===== src/Syscall/Transfer.antt =====
-- userprog/exception.cc: SC_Read, SC_Write, SC_Send and SC_Receive.
pub mod Rounds
use nachos_project_2_os_subj.Base.{
  ℕ, zero, suc, ◌+◌, ◌-◌, List, [], ◌∷◌, ◌++◌, Option, none, some, Bool, true, false, ◌||◌, ◌&&◌,
  not, Result, ok, err, out_of_fuel, wild_access, guard, ◌>>◌, ◌>>=◌, deref, if◌then◌else◌, ◌==◌,
  slt, ltb, u32, sub32, minus_one, length,
}
use nachos_project_2_os_subj.Machine.{Machine, read_register}
use nachos_project_2_os_subj.UserMemory.{user_to_system, system_to_user, buffer_of}
use nachos_project_2_os_subj.FileSystem.{
  Host, OpenFile, has_type, get_current_pos, read_file, write_file, put_bytes,
}
use nachos_project_2_os_subj.Syscall.State.{
  Kernel, Outcome, outside, arg, answer, file_at, put_file,
}

-- A connected socket.
abbrev pub is_connected : OpenFile → Bool
is_connected f = has_type f 2 && f.is_connect

-- The memory has fewer than 65 times 255 bytes.
abbrev pub console_fuel : ℕ
console_fuel = 65

unfoldable pub first : ℕ → List ℕ → List ℕ
first zero chars = []
first (suc n) [] = []
first (suc n) (c ∷ chars) = c ∷ first n chars

module _ {W : Type 0} (host : Host W) where
  -- The bytes of a buffer for the program, and their number as the result.
  unfoldable pub deliver : Kernel W → ℕ → ℕ → List ℕ → Result (Outcome W)
  deliver k addr n buffer =
      system_to_user k.machine addr n buffer >>= λ r. answer (record k { machine = r.1 }) n

  -- A line of the console, of at most `left` characters.
  unfoldable pub read_line : ℕ → W → W × List ℕ
  read_line zero w = (w, [])
  read_line (suc left) w =
      let r = host.get_char w in
      elim (r.1 == 10) [
        | true ↦ (r.0, 10 ∷ [])
        | false ↦ let rest = read_line left r.0 in (rest.0, r.1 ∷ rest.1)
      ]

  unfoldable pub read_console : Kernel W → ℕ → ℕ → List ℕ → Result (Outcome W)
  read_console k addr count buffer =
      let line = read_line (if slt count 0 then 0 else count) k.world in
      put_bytes (line.1 ++ 0 ∷ []) buffer >>= λ buffer'.
      deliver (record k { world = line.0 }) addr (length line.1) buffer'

  -- From a file, whose position tells how much was read.
  unfoldable pub read_disk : Kernel W → ℕ → OpenFile → ℕ → ℕ → ℕ → List ℕ → Result (Outcome W)
  read_disk k id f old addr count buffer = read_file host f count k.world >>= λ r.
      put_bytes r.3 buffer >>= λ buffer'.
      if slt 0 r.2
      then (let now = get_current_pos host r.0 r.1 in
          deliver (put_file (record k { world = now.1 }) id (some now.0)) addr (sub32 now.2 old)
            buffer')
      else answer (put_file (record k { world = r.1 }) id (some r.0)) minus_one

  unfoldable pub read_socket : Kernel W → ℕ → OpenFile → ℕ → ℕ → List ℕ → Result (Outcome W)
  read_socket k id f addr count buffer = read_file host f count k.world >>= λ r.
      put_bytes r.3 buffer >>= λ buffer'.
      let k₁ = put_file (record k { world = r.1 }) id (some r.0) in
      if slt 0 r.2 then deliver k₁ addr r.2 buffer' else answer k₁ minus_one

  unfoldable pub sc_read : Kernel W → Result (Outcome W)
  sc_read k = do
    addr ← arg k 4
    count ← arg k 5
    id ← arg k 6
    if outside 0 id
        then answer k minus_one
        else (file_at k id >>= λ slot. elim slot [
          | none ↦ answer k minus_one
          | some f₀ ↦
              let pos = get_current_pos host f₀ k.world in
              let f = pos.0 in
              user_to_system k.machine addr count >>= λ copied.
              let k₁ = put_file (record k { machine = copied.1; world = pos.1 }) id (some f) in
              let buffer = buffer_of count copied.0 in
              if id == 0
              then read_console k₁ addr count buffer
              else if has_type f 0 || has_type f 1
              then read_disk k₁ id f pos.2 addr count buffer
              else if is_connected f
              then read_socket k₁ id f addr count buffer
              else answer k₁ minus_one
        ])

  unfoldable pub put_chars : List ℕ → W → W
  put_chars [] w = w
  put_chars (c ∷ chars) w = put_chars chars (host.put_char w c)

  -- The loop of SC_Write to the console: after each 255 characters the buffer is read again from
  -- 255 addresses on, with `fuel` times to go.
  unfoldable pub write_console : ℕ → ℕ → List ℕ → Machine → W → Result (ℕ × Machine × W)
  write_console zero addr chars m w =
      if ltb (length chars) 255 then ok (length chars, m, put_chars chars w) else err out_of_fuel
  write_console (suc fuel) addr chars m w = elim (ltb (length chars) 255) [
    | true ↦ ok (length chars, m, put_chars chars w)
    | false ↦ user_to_system m (u32 (addr + 255)) 255 >>= λ r.
        write_console fuel (u32 (addr + 255)) r.0 r.1 (put_chars (first 255 chars) w)
  ]

  -- To a file, whose position tells how much was written.
  unfoldable pub write_disk : Kernel W → ℕ → OpenFile → ℕ → ℕ → List ℕ → Result (Outcome W)
  write_disk k id f old count buffer = write_file host f buffer count k.world >>= λ r.
      if slt 0 r.2
      then (let now = get_current_pos host r.0 r.1 in
          answer (put_file (record k { world = now.1 }) id (some now.0)) (sub32 now.2 old))
      else answer (put_file (record k { world = r.1 }) id (some r.0)) minus_one

  unfoldable pub write_socket : Kernel W → ℕ → OpenFile → ℕ → List ℕ → Result (Outcome W)
  write_socket k id f count buffer = write_file host f buffer count k.world >>= λ r.
      answer (put_file (record k { world = r.1 }) id (some r.0))
        (if slt 0 r.2 then r.2 else minus_one)

  -- With the buffer of the program read, and the position before.
  unfoldable pub write_to : Kernel W → ℕ → OpenFile → ℕ → ℕ → ℕ → List ℕ → Result (Outcome W)
  write_to k id f old addr count chars =
      if id == 1
      then (guard (not (u32 (count + 1) == 0)) wild_access
          >> write_console console_fuel addr chars k.machine k.world
          >>= λ r. answer (record k { machine = r.1; world = r.2 }) (sub32 r.0 1))
      else if has_type f 0
      then write_disk k id f old count (buffer_of count chars)
      else if is_connected f
      then write_socket k id f count (buffer_of count chars)
      else answer k minus_one

  unfoldable pub sc_write : Kernel W → Result (Outcome W)
  sc_write k = do
    addr ← arg k 4
    count ← arg k 5
    id ← arg k 6
    if outside 0 id
        then answer k minus_one
        else (file_at k id >>= λ slot. elim slot [
          | none ↦ answer k minus_one
          | some f ↦
              if id == 0 || has_type f 1
              then answer k minus_one
              else (let pos = get_current_pos host f k.world in
                  user_to_system k.machine addr count >>= λ copied.
                  write_to
                    (put_file (record k { machine = copied.1; world = pos.1 }) id (some pos.0)) id
                    pos.0 pos.2 addr count copied.0)
        ])

  unfoldable pub sc_send : Kernel W → Result (Outcome W)
  sc_send k = do
    addr ← arg k 4
    count ← arg k 5
    id ← arg k 6
    if outside 0 id
        then answer k minus_one
        else (file_at k id >>= λ slot. elim slot [
          | none ↦ answer k minus_one
          | some f ↦ user_to_system k.machine addr count >>= λ copied.
              let k₁ = record k { machine = copied.1 } in
              if is_connected f
              then write_socket k₁ id f count (buffer_of count copied.0)
              else answer k₁ minus_one
        ])

  unfoldable pub sc_receive : Kernel W → Result (Outcome W)
  sc_receive k = do
    addr ← arg k 4
    count ← arg k 5
    id ← arg k 6
    if outside 2 id
        then answer k minus_one
        else (file_at k id >>= λ slot. elim slot [
          | none ↦ answer k minus_one
          | some f ↦ user_to_system k.machine addr count >>= λ copied.
              let k₁ = record k { machine = copied.1 } in
              if is_connected f
              then read_socket k₁ id f addr count (buffer_of count copied.0)
              else answer k₁ minus_one
        ])
