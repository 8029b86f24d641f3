-- ===== src/Pipe.antt =====
-- struct pipe, pipeclose, pipewrite and piperead (Source Code/pipe.c). Each call runs under the
-- pipe's lock up to its end or to a sleep; a sleeping call ends its step with what is left to do,
-- and goes on when it is woken. A wakeup is the list of channels that a call wakes.
pub mod Ring
pub mod Calls
pub mod Stream
use tugas_sistem_operasi.Base.{
  ℕ, zero, suc, ◌+◌, ◌-◌, ◌%◌, ◌^◌, Option, none, some, Bool, true, false, ◌&&◌, ◌||◌, not, List,
  [], ◌∷◌, if◌then◌else◌, ◌==◌,
}

abbrev pub pipe_size : ℕ
pipe_size = 512

-- `data` is the ring of bytes; the counters are of type uint.
pub record Pipe : Type 0 where
  pub bytes : ℕ → ℕ
  pub nread : ℕ
  pub nwrite : ℕ
  pub readopen : Bool
  pub writeopen : Bool

pub data End : Type 0 where
  reader writer : End

abbrev pub uint : ℕ → ℕ
uint n = n % 2 ^ 32

abbrev pub store : (ℕ → ℕ) → ℕ → ℕ → ℕ → ℕ
store d i b j = if i == j then b else d j

-- The fields that pipealloc sets; the ring holds what the page held.
unfoldable pub new_pipe : (ℕ → ℕ) → Pipe
new_pipe page = record { bytes = page; nread = 0; nwrite = 0; readopen = true; writeopen = true }

-- The pipe, the end that is woken, and whether the page of the pipe is freed.
unfoldable pub pipeclose : Pipe → (writable : Bool) → Pipe × End × Bool
pipeclose p writable =
    let q = if writable then record p { writeopen = false } else record p { readopen = false } in
    (q, if writable then reader else writer, not q.readopen && not q.writeopen)

unfoldable pub is_full : Pipe → Bool
is_full p = p.nwrite == uint (p.nread + pipe_size)

unfoldable pub is_empty : Pipe → Bool
is_empty p = p.nread == p.nwrite

-- p->data[p->nwrite++ % PIPESIZE] = b.
unfoldable pub push : ℕ → Pipe → Pipe
push b p = record p { bytes = store p.bytes (p.nwrite % pipe_size) b; nwrite = uint (p.nwrite + 1) }

-- p->data[p->nread++ % PIPESIZE].
unfoldable pub pop : Pipe → ℕ × Pipe
pop p = (p.bytes (p.nread % pipe_size), record p { nread = uint (p.nread + 1) })

pub data Write : Type 0 where
  -- All bytes are written, and readers woken.
  wrote : Pipe → Write
  -- -1: the pipe is full, and nobody reads it or the caller is killed.
  broken : Pipe → Write
  -- Readers are woken, and the caller sleeps with these bytes left.
  waits : List ℕ → Pipe → Write

-- The loop of pipewrite.
unfoldable pub pipewrite : (killed : Bool) → List ℕ → Pipe → Write
pipewrite killed [] p = wrote p
pipewrite killed (b ∷ bs) p =
    let rest = pipewrite killed bs (push b p) in
    if is_full p then (if not p.readopen || killed then broken p else waits (b ∷ bs) p) else rest

pub data Read : Type 0 where
  -- The bytes that are copied out; writers are woken.
  got : List ℕ → Pipe → Read
  -- -1: the caller is killed.
  stopped : Pipe → Read
  -- The caller sleeps.
  sleeps : Pipe → Read

-- The loop that copies, for at most `n` bytes.
unfoldable pub read_loop : ℕ → Pipe → List ℕ × Pipe
read_loop zero p = ([], p)
read_loop (suc n) p =
    let (b, q) = pop p in
    let rest = read_loop n q in if is_empty p then ([], p) else (b ∷ rest.0, rest.1)

unfoldable pub piperead : (killed : Bool) → ℕ → Pipe → Read
piperead killed n p =
    let (bytes, q) = read_loop n p in
    if is_empty p && p.writeopen then (if killed then stopped p else sleeps p) else got bytes q
