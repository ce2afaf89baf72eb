-- ===== src/Syscall/Files.antt =====
-- userprog/exception.cc: SC_Create, SC_Open, SC_Close, SC_Seek, SC_Remove, SC_Socket and SC_Connect.
use nachos_project_2_os_subj.Base.{
  ℕ, ◌+◌, List, [], ◌∷◌, none, some, Bool, false, ◌||◌, not, Result, ◌>>=◌, if◌then◌else◌, ◌==◌,
  slt, minus_one, length,
}
use nachos_project_2_os_subj.STable.{CString, same_string}
use nachos_project_2_os_subj.FileSystem.{
  Host, OpenFile, has_type, is_full, max_files, create_file, open_typed, delete_file, file_length,
  seek, remove_file, socket_tcp, connect_file,
}
use nachos_project_2_os_subj.Syscall.State.{
  Kernel, Outcome, outside, arg, answer, string_arg, file_at, put_file, put_name,
}

abbrev pub max_file_length : ℕ
max_file_length = 32

abbrev pub max_length_ip : ℕ
max_length_ip = 46

-- "socket"
abbrev pub socket_name : CString
socket_name = 115 ∷ 111 ∷ 99 ∷ 107 ∷ 101 ∷ 116 ∷ []

abbrev pub is_empty : CString → Bool
is_empty name = length name == 0

-- The loop of SC_Remove over the names of the open files.
unfoldable pub is_open : List CString → CString → Bool
is_open [] name = false
is_open (other ∷ names) name = same_string name other || is_open names name

module _ {W : Type 0} (host : Host W) where
  unfoldable pub sc_create : Kernel W → Result (Outcome W)
  sc_create k = do
    (k₁, name) ← string_arg k 4 (max_file_length + 1)
    if is_empty name
        then answer k₁ minus_one
        else (create_file host name k₁.world >>= λ made.
            answer (record k₁ { world = made.0 }) (if made.1 then 0 else minus_one))

  -- With the name read, and the first free entry of the table.
  unfoldable pub open_at : Kernel W → CString → ℕ → ℕ → Result (Outcome W)
  open_at k name kind id =
      if kind == 1 || kind == 0
      then (let opened = open_typed host name kind k.world in
          let k₁ = put_file (record k { world = opened.0 }) id opened.1 in
          elim opened.1 [ none ↦ answer k₁ minus_one | some f ↦ answer (put_name k₁ id name) id ])
      else answer k minus_one

  unfoldable pub sc_open : Kernel W → Result (Outcome W)
  sc_open k = do
    kind ← arg k 5
    (k₁, name) ← string_arg k 4 (max_file_length + 1)
    let id = is_full k₁.files
    if id == minus_one || is_empty name then answer k₁ minus_one else open_at k₁ name kind id

  unfoldable pub sc_close : Kernel W → Result (Outcome W)
  sc_close k = do
    id ← arg k 4
    if outside 2 id
        then answer k minus_one
        else (file_at k id >>= λ slot. elim slot [
          | none ↦ answer k minus_one
          | some f ↦ delete_file host f k.world >>= λ w.
              answer (put_file (put_name (record k { world = w }) id []) id none) 0
        ])

  -- To a position, or for -1 to the end.
  unfoldable pub seek_to : Kernel W → ℕ → OpenFile → ℕ → Result (Outcome W)
  seek_to k id f pos = file_length host f k.world >>= λ measured.
      if slt measured.1 pos
      then answer (record k { world = measured.0 }) minus_one
      else (let target = if pos == minus_one then measured.1 else pos in
          seek host f target measured.0 >>= λ moved.
          answer (put_file (record k { world = moved.1 }) id (some moved.0)) target)

  -- A negative number passes the test, and openfile[id] lies outside of the table.
  unfoldable pub sc_seek : Kernel W → Result (Outcome W)
  sc_seek k = do
    pos ← arg k 4
    id ← arg k 5
    if id == 0 || id == 1 || not (slt id max_files)
        then answer k minus_one
        else (file_at k id >>= λ slot. elim slot [
          | none ↦ answer k minus_one
          | some f ↦ if has_type f 2 then answer k minus_one else seek_to k id f pos
        ])

  unfoldable pub sc_remove : Kernel W → Result (Outcome W)
  sc_remove k = do
    (k₁, name) ← string_arg k 4 (max_file_length + 1)
    if is_empty name || is_open k₁.files.filename name
        then answer k₁ minus_one
        else (let removed = remove_file host name k₁.world in
            answer (record k₁ { world = removed.0 }) (if removed.1 then 0 else minus_one))

  unfoldable pub sc_socket : Kernel W → Result (Outcome W)
  sc_socket k =
      let id = is_full k.files in
      if id == minus_one
      then answer k minus_one
      else (let made = socket_tcp host k.world in
          let k₁ = put_file (record k { world = made.0 }) id made.1 in
          elim made.1 [
            | none ↦ answer k₁ minus_one
            | some f ↦ answer (put_name k₁ id socket_name) id
          ])

  unfoldable pub sc_connect : Kernel W → Result (Outcome W)
  sc_connect k = do
    id ← arg k 4
    port ← arg k 6
    if outside 2 id
        then answer k minus_one
        else (file_at k id >>= λ slot. elim slot [
          | none ↦ answer k minus_one
          | some f ↦ string_arg k 5 max_length_ip >>= λ read.
              let done = connect_file host f read.1 port read.0.world in
              answer (put_file (record (read.0) { world = done.1 }) id (some done.0))
                (if slt done.2 0 then minus_one else 0)
        ])
