-- ===== src/FileSystem.antt =====
-- filesys/filesys.h and filesys/openfile.h with FILESYS_STUB: a table of twenty open files over the
-- files and sockets of the host.
pub mod Table
use nachos_project_2_os_subj.Base.{
  ℕ, zero, suc, ◌+◌, ◌-◌, ◌%◌, ◌^◌, Bool, true, false, not, List, [], ◌∷◌, ◌++◌, Option, none, some,
  Result, ok, err, wild_access, ◌>>=◌, ◌>>◌, assert, deref, if◌then◌else◌, ◌==◌, leb, sle, slt, u32,
  minus_one, replicate, length, set,
}
use nachos_project_2_os_subj.STable.{CString}

-- The calls of the host, on the state of its files. An answer below 0 is an error; `read` also
-- gives the bytes.
pub record Host (W : Type 0) : Type 0 where
  pub open_existing : W → CString → W × ℕ
  pub open_new : W → CString → W × ℕ
  pub close : W → ℕ → W × ℕ
  pub read : W → ℕ → ℕ → W × ℕ × List ℕ
  pub write : W → ℕ → List ℕ → W × ℕ
  pub lseek : W → (file offset whence : ℕ) → W × ℕ
  pub socket : W → W × ℕ
  pub connect : W → ℕ → CString → ℕ → W × ℕ
  pub unlink : W → CString → W × ℕ
  pub get_char : W → W × ℕ
  pub put_char : W → ℕ → W

-- `type` is `none` where the constructor leaves it unset; `is_socket` is the class socketH.
pub record OpenFile : Type 0 where
  pub file : ℕ
  pub type : Option ℕ
  pub is_connect : Bool
  pub current_offset : ℕ
  pub is_socket : Bool

pub record Files : Type 0 where
  pub openfile : List (Option OpenFile)
  pub filename : List CString

abbrev pub max_files : ℕ
max_files = 20

abbrev pub has_type : OpenFile → ℕ → Bool
has_type f n = elim f.type [ none ↦ false | some t ↦ t == n ]

-- The first `n` bytes of a buffer; more than it has lie outside of it.
unfoldable pub take_bytes : ℕ → List ℕ → Result (List ℕ)
take_bytes zero buffer = ok []
take_bytes (suc n) [] = err wild_access
take_bytes (suc n) (b ∷ buffer) = take_bytes n buffer >>= λ rest. ok (b ∷ rest)

-- Bytes written from the start of a buffer on.
unfoldable pub put_bytes : List ℕ → List ℕ → Result (List ℕ)
put_bytes [] buffer = ok buffer
put_bytes (b ∷ bytes) [] = err wild_access
put_bytes (b ∷ bytes) (old ∷ buffer) = put_bytes bytes buffer >>= λ rest. ok (b ∷ rest)

abbrev pub is_null : Option OpenFile → Bool
is_null none = true
is_null (some f) = false

unfoldable pub free_from : List (Option OpenFile) → ℕ → ℕ
free_from [] i = minus_one
free_from (slot ∷ slots) i = if is_null slot then i else free_from slots (i + 1)

-- FileSystem::isFull: the first free entry of the table, or -1.
unfoldable pub is_full : Files → ℕ
unfolding free_from
is_full fs = free_from fs.openfile 0

module _ {W : Type 0} (host : Host W) where
  -- Lseek
  unfoldable pub lseek : W → ℕ → ℕ → ℕ → Result W
  lseek w file offset whence =
      let r = host.lseek w file offset whence in assert (sle 0 r.1) >> ok r.0

  -- Tell
  abbrev pub tell : W → ℕ → W × ℕ
  tell w file = host.lseek w file 0 1

  -- OpenFile::Read and socketH::Read: the file, the answer and the bytes.
  unfoldable pub read_file : OpenFile → ℕ → W → Result (OpenFile × W × ℕ × List ℕ)
  unfolding lseek
  read_file f n w =
      if f.is_socket
      then if not f.is_connect
        then ok (f, w, minus_one, [])
        else (let r = host.read w f.file n in ok (f, r.0, r.1, r.2))
      else (lseek w f.file f.current_offset 0 >>= λ w₁.
          let r = host.read w₁ f.file n in
          ok (record f { current_offset = u32 (f.current_offset + r.1) }, r.0, r.1, r.2))

  -- OpenFile::Write, whose WriteFile asserts that all is written, and socketH::Write.
  unfoldable pub write_file : OpenFile → List ℕ → ℕ → W → Result (OpenFile × W × ℕ)
  unfolding lseek take_bytes
  write_file f buffer n w =
      if f.is_socket
      then if not f.is_connect
        then ok (f, w, minus_one)
        else (take_bytes n buffer >>= λ bytes.
            let r = host.write w f.file bytes in ok (f, r.0, r.1))
      else (lseek w f.file f.current_offset 0 >>= λ w₁. take_bytes n buffer >>= λ bytes.
          let r = host.write w₁ f.file bytes in
          assert (r.1 == n)
          >> ok (record f { current_offset = u32 (f.current_offset + n) }, r.0, n))

  -- OpenFile::Seek
  unfoldable pub seek : OpenFile → ℕ → W → Result (OpenFile × W)
  unfolding lseek
  seek f pos w = lseek w f.file pos 0 >>= λ w₁.
      let r = tell w₁ f.file in ok (record f { current_offset = r.1 }, r.0)

  -- OpenFile::GetCurrentPos; the offset becomes the position too.
  unfoldable pub get_current_pos : OpenFile → W → OpenFile × W × ℕ
  get_current_pos f w = let r = tell w f.file in (record f { current_offset = r.1 }, r.0, r.1)

  -- OpenFile::Length
  unfoldable pub file_length : OpenFile → W → Result (W × ℕ)
  unfolding lseek
  file_length f w = lseek w f.file 0 2 >>= λ w₁. ok (tell w₁ f.file)

  -- OpenFile::Connect
  unfoldable pub connect_file : OpenFile → CString → ℕ → W → OpenFile × W × ℕ
  connect_file f ip port w =
      if not (has_type f 2)
      then (f, w, minus_one)
      else (let r = host.connect w f.file ip port in
          if slt r.1 0
          then (record f { is_connect = false }, r.0, minus_one)
          else (record f { is_connect = true }, r.0, 0))

  -- Close
  unfoldable pub close : W → ℕ → Result W
  close w file = let r = host.close w file in assert (sle 0 r.1) >> ok r.0

  -- OpenFile::~OpenFile. A socket's CloseSocket asserts nothing.
  unfoldable pub delete_file : OpenFile → W → Result W
  unfolding close
  delete_file f w = if has_type f 2 then ok (host.close w f.file).0 else close w f.file

  -- FileSystem::Create; OpenForWrite asserts that the file is open.
  unfoldable pub create_file : CString → W → Result (W × Bool)
  unfolding close
  create_file name w =
      let r = host.open_new w name in
      assert (sle 0 r.1)
      >> (if r.1 == minus_one then ok (r.0, false) else (close r.0 r.1 >>= λ w₁. ok (w₁, true)))

  -- FileSystem::socketTCP
  unfoldable pub socket_tcp : W → W × Option OpenFile
  socket_tcp w =
      let r = host.socket w in
      if slt r.1 0 then (r.0, none) else (
        r.0,
        some (record {
          file = r.1;
          type = some 2;
          is_connect = false;
          current_offset = 0;
          is_socket = true;
        }),
      )

  -- FileSystem::Open(char *)
  unfoldable pub open_file : CString → W → W × Option OpenFile
  open_file name w =
      let r = host.open_existing w name in
      if slt r.1 0 then (r.0, none) else (
        r.0,
        some (record {
          file = r.1;
          type = none;
          is_connect = true;
          current_offset = 0;
          is_socket = false;
        }),
      )

  -- FileSystem::Open(char *, int)
  unfoldable pub open_typed : CString → ℕ → W → W × Option OpenFile
  open_typed name kind w =
      let r = host.open_existing w name in
      if r.1 == minus_one then (r.0, none) else (
        r.0,
        some (record {
          file = r.1;
          type = some kind;
          is_connect = false;
          current_offset = 0;
          is_socket = false;
        }),
      )

  -- FileSystem::Remove
  unfoldable pub remove_file : CString → W → W × Bool
  remove_file name w = let r = host.unlink w name in (r.0, r.1 == 0)

  -- FileSystem::FileSystem: the files "stdin" and "stdout", of types 1 and 0, at 0 and 1.
  unfoldable pub new_files : W → Result (Files × W)
  unfolding create_file open_file
  new_files w = do
    let stdin : CString = 115 ∷ 116 ∷ 100 ∷ 105 ∷ 110 ∷ []
    let stdout : CString = 115 ∷ 116 ∷ 100 ∷ 111 ∷ 117 ∷ 116 ∷ []
    made_in ← create_file stdin w
    made_out ← create_file stdout made_in.0
    let opened_in = open_file stdin made_out.0
    f ← deref opened_in.1
    let opened_out = open_file stdout opened_in.0
    g ← deref opened_out.1
    ok (
      record {
        openfile =
            some (record f { type = some 1 })
            ∷ some (record g { type = some 0 })
            ∷ replicate 18 none;
        filename = stdin ∷ stdout ∷ replicate 18 [];
      },
      opened_out.0,
    )
