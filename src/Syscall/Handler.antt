-- ===== src/Syscall/Handler.antt =====
-- syscall_handler of userprog/syscall.c, up to the call of the handler of each system call: the
-- number and the arguments on the user's stack.
pub mod Words
use pintos_nightmare.Base.{◌==◌, if◌then◌else◌, ℕ, Option, some, List, [], ◌∷◌}
use pintos_nightmare.Syscall.{UserMemory, validate_buffer, int_at, retrive_args1}

-- The system calls that the handler knows, with their arguments. `exit` with -1 is also what a
-- process gets that passes a bad pointer or an unknown number.
pub data Request : Type 0 where
  halt : Request
  exit : (status : ℕ) → Request
  exec : (cmd_line : ℕ) → Request
  wait : (pid : ℕ) → Request
  create : (file initial_size : ℕ) → Request
  remove : (file : ℕ) → Request
  open_name : (file_name : ℕ) → Request
  filesize : (fd : ℕ) → Request
  read : (fd buffer size : ℕ) → Request
  write : (fd buffer size : ℕ) → Request
  seek : (fd position : ℕ) → Request
  tell : (fd : ℕ) → Request
  close : (fd : ℕ) → Request
  sleep : (millis : ℕ) → Request

abbrev pub killed : Request
killed = exit 0xffff_ffff

abbrev one : (ℕ → Request) → Option (List ℕ) → Request
one f (some (a ∷ [])) = f a
one f _ = killed

abbrev two : (ℕ → ℕ → Request) → Option (List ℕ) → Request
two f (some (a ∷ b ∷ [])) = f a b
two f _ = killed

abbrev three : (ℕ → ℕ → ℕ → Request) → Option (List ℕ) → Request
three f (some (a ∷ b ∷ c ∷ [])) = f a b c
three f _ = killed

-- The switch, by the number; `args` fetches so many arguments.
unfoldable pub dispatch : (number : ℕ) → (args : ℕ → Option (List ℕ)) → Request
dispatch number args =
    if number == 0
    then halt
    else if number == 1
    then one exit (args 1)
    else if number == 2
    then one exec (args 1)
    else if number == 3
    then one wait (args 1)
    else if number == 4
    then two create (args 2)
    else if number == 5
    then one remove (args 1)
    else if number == 6
    then one open_name (args 1)
    else if number == 7
    then one filesize (args 1)
    else if number == 8
    then three read (args 3)
    else if number == 9
    then three write (args 3)
    else if number == 10
    then two seek (args 2)
    else if number == 11
    then one tell (args 1)
    else if number == 12
    then one close (args 1)
    else if number == 13
    then one sleep (args 1)
    else killed

unfoldable pub syscall_handler : UserMemory → (esp : ℕ) → Request
syscall_handler mem esp =
    if validate_buffer mem esp 4 then dispatch (int_at mem esp) (retrive_args1 mem esp) else killed
