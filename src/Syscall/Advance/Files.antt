-- ===== src/Syscall/Advance/Files.antt =====
-- What SC_Create, SC_Open, SC_Close, SC_Seek, SC_Remove, SC_Socket and SC_Connect leave of the
-- registers.
use nachos_project_2_os_subj.Base.{ℕ, ◌+◌, ◌||◌, not, if◌then◌else◌, ◌==◌, slt, minus_one}
use nachos_project_2_os_subj.Machine.{Machine}
use nachos_project_2_os_subj.UserMemory.Post.{Post, Post-if, Post-bind, Post-any, Post-option}
use nachos_project_2_os_subj.UserMemory.Kept.{IsUser, Kept, Kept-self}
use nachos_project_2_os_subj.FileSystem.{
  Host, OpenFile, has_type, is_full, max_files, create_file, delete_file, file_length, seek,
}
use nachos_project_2_os_subj.STable.{CString}
use nachos_project_2_os_subj.Syscall.State.{Kernel, outside, arg, file_at}
use nachos_project_2_os_subj.Syscall.Advance.{Good, answer-Good, string_arg-Kept}
use nachos_project_2_os_subj.Syscall.Files.{
  max_file_length, max_length_ip, is_empty, is_open, sc_create, open_at, sc_open, sc_close, seek_to,
  sc_seek, sc_remove, sc_socket, sc_connect,
}

module _ {W : Type 0} (host : Host W) where
  pub sc_create-Good : (k : Kernel W) → IsUser k.machine → Post (Good k.machine) (sc_create host k)
  unfolding sc_create
  sc_create-Good k u =
      Post-bind (string_arg-Kept k.machine k 4 (max_file_length + 1) (Kept-self _ u)) λ r h.
        Post-if (is_empty r.1) _ _ (answer-Good _ _ _ h)
          (Post-any (create_file host r.1 r.0.world) _ λ made. answer-Good _ _ _ h)

  open_at-Good :
      (m : Machine) (k : Kernel W) (name : CString) (kind id : ℕ)
      → Kept m k.machine
      → Post (Good m) (open_at host k name kind id)
  unfolding open_at
  open_at-Good m k name kind id h =
      Post-if (kind == 1 || kind == 0) _ _
        (Post-option _ _ _ (answer-Good _ _ _ h) λ f. answer-Good _ _ _ h) (answer-Good _ _ _ h)

  pub sc_open-Good : (k : Kernel W) → IsUser k.machine → Post (Good k.machine) (sc_open host k)
  unfolding sc_open
  sc_open-Good k u = Post-any (arg k 5) _ λ kind.
      Post-bind (string_arg-Kept k.machine k 4 (max_file_length + 1) (Kept-self _ u)) λ r h.
        Post-if (is_full r.0.files == minus_one || is_empty r.1) _ _ (answer-Good _ _ _ h)
          (open_at-Good _ _ _ _ _ h)

  pub sc_close-Good : (k : Kernel W) → IsUser k.machine → Post (Good k.machine) (sc_close host k)
  unfolding sc_close
  sc_close-Good k u =
      let h = Kept-self k.machine u in
      Post-any (arg k 4) _ λ id. Post-if (outside 2 id) _ _ (answer-Good _ _ _ h) (
        Post-any (file_at k id) _ λ slot.
          Post-option slot _ _ (answer-Good _ _ _ h)
            λ f. Post-any (delete_file host f k.world) _ λ w. answer-Good _ _ _ h)

  seek_to-Good :
      (m : Machine) (k : Kernel W) (id : ℕ) (f : OpenFile) (pos : ℕ)
      → Kept m k.machine
      → Post (Good m) (seek_to host k id f pos)
  unfolding seek_to
  seek_to-Good m k id f pos h = Post-any (file_length host f k.world) _ λ measured.
      Post-if (slt measured.1 pos) _ _ (answer-Good _ _ _ h) (
        Post-any (seek host f (if pos == minus_one then measured.1 else pos) measured.0) _
          λ moved. answer-Good _ _ _ h)

  pub sc_seek-Good : (k : Kernel W) → IsUser k.machine → Post (Good k.machine) (sc_seek host k)
  unfolding sc_seek
  sc_seek-Good k u =
      let h = Kept-self k.machine u in
      Post-any (arg k 4) _ λ pos. Post-any (arg k 5) _ λ id.
        Post-if (id == 0 || id == 1 || not (slt id max_files)) _ _ (answer-Good _ _ _ h) (
          Post-any (file_at k id) _ λ slot.
            Post-option slot _ _ (answer-Good _ _ _ h)
              λ f. Post-if (has_type f 2) _ _ (answer-Good _ _ _ h) (seek_to-Good _ k id f pos h))

  pub sc_remove-Good : (k : Kernel W) → IsUser k.machine → Post (Good k.machine) (sc_remove host k)
  unfolding sc_remove
  sc_remove-Good k u =
      Post-bind (string_arg-Kept k.machine k 4 (max_file_length + 1) (Kept-self _ u)) λ r h.
        Post-if (is_empty r.1 || is_open r.0.files.filename r.1) _ _ (answer-Good _ _ _ h)
          (answer-Good _ _ _ h)

  pub sc_socket-Good : (k : Kernel W) → IsUser k.machine → Post (Good k.machine) (sc_socket host k)
  unfolding sc_socket
  sc_socket-Good k u =
      let h = Kept-self k.machine u in
      Post-if (is_full k.files == minus_one) _ _ (answer-Good _ _ _ h)
        (Post-option _ _ _ (answer-Good _ _ _ h) λ f. answer-Good _ _ _ h)

  pub sc_connect-Good :
      (k : Kernel W) → IsUser k.machine → Post (Good k.machine) (sc_connect host k)
  unfolding sc_connect
  sc_connect-Good k u =
      let h = Kept-self k.machine u in
      Post-any (arg k 4) _ λ id. Post-any (arg k 6) _ λ port.
        Post-if (outside 2 id) _ _ (answer-Good _ _ _ h) (
          Post-any (file_at k id) _ λ slot. Post-option slot _ _ (answer-Good _ _ _ h) λ f.
            Post-bind (string_arg-Kept k.machine k 5 max_length_ip h) λ r l. answer-Good _ _ _ l)
