-- ===== src/Syscall/Advance/Transfer.antt =====
-- What SC_Read, SC_Write, SC_Send and SC_Receive leave of the registers.
use nachos_project_2_os_subj.Base.{
  ℕ, zero, suc, ◌+◌, List, ◌||◌, not, guard, ltb, ◌==◌, slt, length, u32, wild_access, out_of_fuel,
}
use nachos_project_2_os_subj.Machine.{Machine}
use nachos_project_2_os_subj.UserMemory.{buffer_of}
use nachos_project_2_os_subj.UserMemory.Post.{
  Post, comes, fails, Post-if, Post-cond, Post-bind, Post-any, Post-option, Post-weaken,
}
use nachos_project_2_os_subj.UserMemory.Kept.{
  IsUser, Kept, Kept-self, Kept-trans, further, user_to_system-Kept, system_to_user-Kept,
}
use nachos_project_2_os_subj.FileSystem.{Host, OpenFile, has_type, read_file, write_file, put_bytes}
use nachos_project_2_os_subj.Syscall.State.{Kernel, outside, arg, file_at}
use nachos_project_2_os_subj.Syscall.Advance.{Good, answer-Good}
use nachos_project_2_os_subj.Syscall.Transfer.{
  is_connected, console_fuel, first, put_chars, deliver, read_console, read_disk, read_socket,
  sc_read, write_console, write_disk, write_socket, write_to, sc_write, sc_send, sc_receive,
}

module _ {W : Type 0} (host : Host W) where
  write_console-Kept :
      (fuel addr : ℕ) (chars : List ℕ) (m : Machine) (w : W)
      → IsUser m
      → Post (λ r. Kept m r.1) (write_console host fuel addr chars m w)
  unfolding write_console
  write_console-Kept zero addr chars m w u =
      Post-if (ltb (length chars) 255) _ _ (comes _ (Kept-self m u)) (fails out_of_fuel)
  write_console-Kept (suc fuel) addr chars m w u =
      Post-cond (ltb (length chars) 255) _ _ (comes _ (Kept-self m u)) (
        Post-bind (user_to_system-Kept m (u32 (addr + 255)) 255 u) λ r h.
          Post-weaken (λ s l. Kept-trans _ _ _ h l)
            (write_console-Kept fuel (u32 (addr + 255)) r.0 r.1 (put_chars host (first 255 chars) w)
              h.user))

  module _ (m : Machine) (k : Kernel W) (h : Kept m k.machine) where
    deliver-Good : (addr n : ℕ) (buffer : List ℕ) → Post (Good m) (deliver host k addr n buffer)
    unfolding deliver
    deliver-Good addr n buffer =
        Post-bind (further h (system_to_user-Kept k.machine addr n buffer h.user))
          λ r l. answer-Good _ _ _ l

  module _ (m : Machine) (k : Kernel W) (h : Kept m k.machine) where
    read_console-Good :
        (addr count : ℕ) (buffer : List ℕ) → Post (Good m) (read_console host k addr count buffer)
    unfolding read_console
    read_console-Good addr count buffer = Post-any _ _ λ b. deliver-Good _ _ h _ _ b

    read_disk-Good :
        (id : ℕ) (f : OpenFile) (old addr count : ℕ) (buffer : List ℕ)
        → Post (Good m) (read_disk host k id f old addr count buffer)
    unfolding read_disk
    read_disk-Good id f old addr count buffer = Post-any (read_file host f count k.world) _ λ r.
        Post-any (put_bytes r.3 buffer) _
          λ b. Post-if (slt 0 r.2) _ _ (deliver-Good _ _ h _ _ b) (answer-Good _ _ _ h)

    read_socket-Good :
        (id : ℕ) (f : OpenFile) (addr count : ℕ) (buffer : List ℕ)
        → Post (Good m) (read_socket host k id f addr count buffer)
    unfolding read_socket
    read_socket-Good id f addr count buffer = Post-any (read_file host f count k.world) _ λ r.
        Post-any (put_bytes r.3 buffer) _
          λ b. Post-if (slt 0 r.2) _ _ (deliver-Good _ _ h _ _ b) (answer-Good _ _ _ h)

    write_disk-Good :
        (id : ℕ) (f : OpenFile) (old count : ℕ) (buffer : List ℕ)
        → Post (Good m) (write_disk host k id f old count buffer)
    unfolding write_disk
    write_disk-Good id f old count buffer =
        Post-any (write_file host f buffer count k.world) _
          λ r. Post-if (slt 0 r.2) _ _ (answer-Good _ _ _ h) (answer-Good _ _ _ h)

    write_socket-Good :
        (id : ℕ) (f : OpenFile) (count : ℕ) (buffer : List ℕ)
        → Post (Good m) (write_socket host k id f count buffer)
    unfolding write_socket
    write_socket-Good id f count buffer =
        Post-any (write_file host f buffer count k.world) _ λ r. answer-Good _ _ _ h

  write_to-Good :
      (m : Machine) (k : Kernel W) (h : Kept m k.machine) (id : ℕ) (f : OpenFile)
      (old addr count : ℕ) (chars : List ℕ)
      → Post (Good m) (write_to host k id f old addr count chars)
  unfolding write_to
  write_to-Good m k h id f old addr count chars =
      Post-if (id == 1) _ _
        (Post-bind
          (Post-any (guard (not (u32 (count + 1) == 0)) wild_access) _
            λ _. write_console-Kept console_fuel addr chars k.machine k.world h.user)
          λ r l. answer-Good _ _ _ (Kept-trans _ _ _ h l))
        (Post-if (has_type f 0) _ _ (write_disk-Good m k h id f old count (buffer_of count chars)) (
          Post-if (is_connected f) _ _ (write_socket-Good m k h id f count (buffer_of count chars))
            (answer-Good _ _ _ h)))

  module _ (k : Kernel W) (u : IsUser k.machine) where
    pub sc_read-Good : Post (Good k.machine) (sc_read host k)
    unfolding sc_read
    sc_read-Good =
        let h = Kept-self k.machine u in
        Post-any (arg k 4) _ λ addr. Post-any (arg k 5) _ λ count. Post-any (arg k 6) _ λ id.
          Post-if (outside 0 id) _ _ (answer-Good _ _ _ h) (
            Post-any (file_at k id) _ λ slot. Post-option slot _ _ (answer-Good _ _ _ h) λ f.
              Post-bind (user_to_system-Kept k.machine addr count u) λ r l.
                Post-if (id == 0) _ _ (read_console-Good _ _ l _ _ _) (
                  Post-if _ _ _ (read_disk-Good _ _ l _ _ _ _ _ _)
                    (Post-if _ _ _ (read_socket-Good _ _ l _ _ _ _ _) (answer-Good _ _ _ l))))

    pub sc_write-Good : Post (Good k.machine) (sc_write host k)
    unfolding sc_write
    sc_write-Good =
        let h = Kept-self k.machine u in
        Post-any (arg k 4) _ λ addr. Post-any (arg k 5) _ λ count. Post-any (arg k 6) _ λ id.
          Post-if (outside 0 id) _ _ (answer-Good _ _ _ h) (
            Post-any (file_at k id) _ λ slot. Post-option slot _ _ (answer-Good _ _ _ h) λ f.
              Post-if (id == 0 || has_type f 1) _ _ (answer-Good _ _ _ h) (
                Post-bind (user_to_system-Kept k.machine addr count u)
                  λ r l. write_to-Good _ _ l _ _ _ _ _ _))

    pub sc_send-Good : Post (Good k.machine) (sc_send host k)
    unfolding sc_send
    sc_send-Good =
        let h = Kept-self k.machine u in
        Post-any (arg k 4) _ λ addr. Post-any (arg k 5) _ λ count. Post-any (arg k 6) _ λ id.
          Post-if (outside 0 id) _ _ (answer-Good _ _ _ h) (
            Post-any (file_at k id) _ λ slot. Post-option slot _ _ (answer-Good _ _ _ h) λ f.
              Post-bind (user_to_system-Kept k.machine addr count u) λ r l.
                Post-if (is_connected f) _ _ (write_socket-Good _ _ l _ _ _ _)
                  (answer-Good _ _ _ l))

    pub sc_receive-Good : Post (Good k.machine) (sc_receive host k)
    unfolding sc_receive
    sc_receive-Good =
        let h = Kept-self k.machine u in
        Post-any (arg k 4) _ λ addr. Post-any (arg k 5) _ λ count. Post-any (arg k 6) _ λ id.
          Post-if (outside 2 id) _ _ (answer-Good _ _ _ h) (
            Post-any (file_at k id) _ λ slot. Post-option slot _ _ (answer-Good _ _ _ h) λ f.
              Post-bind (user_to_system-Kept k.machine addr count u) λ r l.
                Post-if (is_connected f) _ _ (read_socket-Good _ _ l _ _ _ _ _)
                  (answer-Good _ _ _ l))
