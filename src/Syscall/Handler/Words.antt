-- ===== src/Syscall/Handler/Words.antt =====
-- The system call that a user program makes is the one that the handler finds.
use pintos_nightmare.Base.{
  if_true, length, get_or, drop, ℕ, ◌+◌, ◌*◌, ◌≡◌, refl, ap, ◌∙◌, true, Option, some, List, [], ◌∷◌,
}
use pintos_nightmare.Syscall.{UserMemory, validate_buffer, int_at, retrive_args1}
use pintos_nightmare.Syscall.Pointers.{ints, retrive_args1-ints}
use pintos_nightmare.Syscall.Handler.{
  Request, halt, exit, exec, wait, create, remove, open_name, filesize, read, write, seek, tell,
  close, sleep, dispatch, syscall_handler,
}

-- The number of a request, and its arguments in order
abbrev pub number_of : Request → ℕ
number_of halt = 0
number_of (exit _) = 1
number_of (exec _) = 2
number_of (wait _) = 3
number_of (create _ _) = 4
number_of (remove _) = 5
number_of (open_name _) = 6
number_of (filesize _) = 7
number_of (read _ _ _) = 8
number_of (write _ _ _) = 9
number_of (seek _ _) = 10
number_of (tell _) = 11
number_of (close _) = 12
number_of (sleep _) = 13

abbrev pub args_of : Request → List ℕ
args_of halt = []
args_of (exit status) = status ∷ []
args_of (exec cmd_line) = cmd_line ∷ []
args_of (wait pid) = pid ∷ []
args_of (create file initial_size) = file ∷ initial_size ∷ []
args_of (remove file) = file ∷ []
args_of (open_name file_name) = file_name ∷ []
args_of (filesize fd) = fd ∷ []
args_of (read fd buffer size) = fd ∷ buffer ∷ size ∷ []
args_of (write fd buffer size) = fd ∷ buffer ∷ size ∷ []
args_of (seek fd position) = fd ∷ position ∷ []
args_of (tell fd) = fd ∷ []
args_of (close fd) = fd ∷ []
args_of (sleep millis) = millis ∷ []

-- What a user program pushes for a request (lib/user/syscall.c), from the lowest address on
abbrev pub words : Request → List ℕ
words r = number_of r ∷ args_of r

dispatch-words :
    (r : Request) (args : ℕ → Option (List ℕ))
    → args (length (args_of r)) ≡ some (args_of r)
    → dispatch (number_of r) args ≡ r
unfolding dispatch
dispatch-words halt args h = refl
dispatch-words (exit status) args h = rw h refl
dispatch-words (exec cmd_line) args h = rw h refl
dispatch-words (wait pid) args h = rw h refl
dispatch-words (create file initial_size) args h = rw h refl
dispatch-words (remove file) args h = rw h refl
dispatch-words (open_name file_name) args h = rw h refl
dispatch-words (filesize fd) args h = rw h refl
dispatch-words (read fd buffer size) args h = rw h refl
dispatch-words (write fd buffer size) args h = rw h refl
dispatch-words (seek fd position) args h = rw h refl
dispatch-words (tell fd) args h = rw h refl
dispatch-words (close fd) args h = rw h refl
dispatch-words (sleep millis) args h = rw h refl

-- When the number and the arguments of a system call stand on the user's stack, in bytes that the
-- process may use, the handler finds that system call with these arguments.
pub syscall_handler-words :
    (mem : UserMemory) (esp : ℕ) (r : Request)
    → validate_buffer mem esp (length (words r) * 4) ≡ true
    → ints mem esp (length (words r)) ≡ words r
    → syscall_handler mem esp ≡ r
unfolding syscall_handler
syscall_handler-words mem esp r valid pushed =
    let (head_valid, fetched) = retrive_args1-ints mem esp (length (args_of r)) valid in
    if_true _ _ head_valid
    ∙ ap (λ w. dispatch w (retrive_args1 mem esp)) (ap (λ l. get_or l 0 0) pushed')
    ∙ dispatch-words r (retrive_args1 mem esp) (fetched ∙ ap (λ l. some (drop 1 l)) pushed')
  where
    pushed' : int_at mem esp ∷ ints mem (esp + 4) (length (args_of r)) ≡ words r
    pushed' = pushed
