-- ===== src/Server.antt =====
-- The main thread of the working process (`start_work_process` of server/main.c) with the workers
-- (server/thread.c): where the descriptors of the clients are. The queue is the list of its requests, as
-- TaskQueue/Refine describes it.
pub mod Steps
pub mod Laws
pub mod Liveness
pub mod Lost
mod Tests
use netdisk.Prelude.{ℕ, ◌*◌, Bool, true, false, List, [], ◌∷◌, ◌++◌, ◌==◌, if◌then◌else◌, length}
use netdisk.Wire.{TransFile, is_long}
use netdisk.TaskQueue.Seg.{Cell}

-- The descriptors in epoll, the waiting requests, the requests that workers have, the descriptors in
-- `thread_pipe_fd`, and `pool->exit`. `dangling` says that the queue's head points to a node that was freed.
pub record Server : Type 0 where
  pub watched : List ℕ
  pub waiting : List Cell
  pub busy : List Cell
  pub piped : List ℕ
  pub exit : Bool
  pub dangling : Bool
  pub max_size : ℕ

-- `init_thread_pool`: the queue has room for three requests for each of the threads.
abbrev pub init_thread_pool : (num : ℕ) → Server
init_thread_pool num = record {
  watched = [];
  waiting = [];
  busy = [];
  piped = [];
  exit = false;
  dangling = false;
  max_size = 3 * num;
}

-- `init_work_condition` has four threads.
abbrev pub started : Server
started = init_thread_pool 4

-- `remove_node`
abbrev pub remove_node : ℕ → List ℕ → List ℕ
remove_node fd [] = []
remove_node fd (x ∷ xs) = if x == fd then xs else x ∷ remove_node fd xs

-- an event on `listen_fd`: `new_fd` is what `accept` returns
abbrev pub on_listen : (new_fd : ℕ) → Server → Server
on_listen new_fd s = record s { watched = new_fd ∷ s.watched }

-- an event on `thread_pipe_fd[0]`, from which `client_fd` is read
abbrev pub on_pipe : (client_fd : ℕ) → (others : List ℕ) → Server → Server
on_pipe client_fd others s = record s { watched = client_fd ∷ s.watched; piped = others }

-- `enqueue` on the list of the requests, its result not looked at
abbrev pub queued : (max_size : ℕ) → Cell → List Cell → List Cell
queued max_size c xs = if length xs == max_size then xs else xs ++ c ∷ []

-- an event on a client's descriptor, with a request
abbrev pub on_request : Cell → Server → Server
on_request c s = record s {
  watched = remove_node c.netfd s.watched;
  waiting = queued s.max_size c s.waiting;
}

-- an event on a client's descriptor that is closed by the client
abbrev pub on_hang_up : (client_fd : ℕ) → Server → Server
on_hang_up client_fd s = record s { watched = remove_node client_fd s.watched }

-- an event on `pipe_fd[0]`: `work_process_quit` up to the wait for the workers
abbrev pub work_process_quit : Server → Server
work_process_quit s = record s { exit = true }

-- The end of a worker's round: the descriptor goes into the pipe, except behind a `puts` or a `gets`.
abbrev pub after_request : Cell → (others : List Cell) → Server → Server
after_request c others s = record s {
  busy = others;
  piped = if is_long c.train.command_no then s.piped else s.piped ++ c.netfd ∷ [];
}
