-- ===== src/Pipe/Stream.antt =====
-- The pipe as a stream, under any interleaving of its readers and writers.
use mathlib.Core.List.{append_assoc, append-nil}
use tugas_sistem_operasi.Base.{
  ℕ, zero, suc, ◌+◌, ◌-◌, ◌≤◌, ◌≡◌, refl, ap, sym, ◌∙◌, Bool, List, [], ◌∷◌, ◌++◌, arith, take,
  drop, length, length-append,
}
use tugas_sistem_operasi.Pipe.{
  Pipe, pipe_size, Write, wrote, broken, waits, pipewrite, Read, got, stopped, sleeps, piperead,
  new_pipe,
}
use tugas_sistem_operasi.Pipe.Ring.{used, slice, contents, IsValid, length-contents}
use tugas_sistem_operasi.Pipe.Calls.{
  Writes, all, some_bytes, gives_up, pipewrite-Writes, Reads, takes, rests, quits, piperead-Reads,
}

-- A call by some process, or its next turn after a sleep.
pub data Call : Type 0 where
  writes : (killed : Bool) → List ℕ → Call
  reads : (killed : Bool) → ℕ → Call

-- A pipe with the bytes that went into it and those that came out.
pub record Traffic : Type 0 where
  pub pipe : Pipe
  pub written : List ℕ
  pub delivered : List ℕ

abbrev pub pipe_after : Write → Pipe
pipe_after (wrote p) = p
pipe_after (broken p) = p
pipe_after (waits left p) = p

abbrev pub after_read : Traffic → Read → Traffic
after_read t (got bs q) = record t { pipe = q; delivered = t.delivered ++ bs }
after_read t (stopped q) = record t { pipe = q }
after_read t (sleeps q) = record t { pipe = q }

-- The bytes that a call has put into the pipe are as many as the pipe has grown by.
unfoldable pub turn : Call → Traffic → Traffic
turn (writes killed bs) t =
    let q = pipe_after (pipewrite killed bs t.pipe) in
    record t { pipe = q; written = t.written ++ take (used q - used t.pipe) bs }
turn (reads killed n) t = after_read t (piperead killed n t.pipe)

unfoldable pub turns : List Call → Traffic → Traffic
turns [] t = t
turns (c ∷ cs) t = turns cs (turn c t)

abbrev pub opened : (ℕ → ℕ) → Traffic
opened page = record { pipe = new_pipe page; written = []; delivered = [] }

-- Nothing is lost, doubled or moved.
pub record Streams (t : Traffic) : Type 0 where
  pub valid : IsValid t.pipe
  pub order : t.written ≡ t.delivered ++ contents t.pipe

take-append : (xs ys : List ℕ) → take (length xs) (xs ++ ys) ≡ xs
take-append [] ys = refl
take-append (x ∷ xs) ys = ap (◌∷◌ x) (take-append xs ys)

take-append-drop : (n : ℕ) (xs : List ℕ) → take n xs ++ drop n xs ≡ xs
take-append-drop zero xs = refl
take-append-drop (suc n) [] = refl
take-append-drop (suc n) (x ∷ xs) = ap (◌∷◌ x) (take-append-drop n xs)

-- The number of bytes by which the pipe has grown finds them.
grown :
    (p q : Pipe) (done left : List ℕ)
    → contents q ≡ contents p ++ done
    → take (used q - used p) (done ++ left) ≡ done
grown p q done left shape =
    let size : used q ≡ used p + length done =
      sym (length-contents q)
      ∙ ap length shape
      ∙ length-append (contents p) done
      ∙ ap (λ n. n + length done) (length-contents p) in
    let more : used q - used p ≡ length done = omega arith in
    ap (λ n. take n (done ++ left)) more ∙ take-append done left

append_order : (w d c done e : List ℕ) → w ≡ d ++ c → e ≡ c ++ done → w ++ done ≡ d ++ e
append_order w d c done e order shape =
    ap (λ l. l ++ done) order ∙ append_assoc d c done ∙ ap (λ l. d ++ l) (sym shape)

Writes-Streams :
    (t : Traffic) (killed : Bool) (bs : List ℕ) (w : Write)
    → Streams t
    → Writes killed t.pipe bs w
    → Streams (record t {
      pipe = pipe_after w;
      written = t.written ++ take (used (pipe_after w) - used t.pipe) bs;
    })
Writes-Streams t killed bs w s (all q v same shape) =
    let taken : take (used q - used t.pipe) bs ≡ bs =
      ap (take (used q - used t.pipe)) (sym (append-nil bs)) ∙ grown t.pipe q bs [] shape in
    record {
      valid = v;
      order =
          ap (λ l. t.written ++ l) taken
          ∙ append_order t.written t.delivered (contents t.pipe) bs (contents q) s.order shape;
    }
Writes-Streams t killed bs w s (some_bytes q done left v same shape split ne full reader alive) =
    let taken : take (used q - used t.pipe) bs ≡ done =
      ap (take (used q - used t.pipe)) split ∙ grown t.pipe q done left shape in
    record {
      valid = v;
      order =
          ap (λ l. t.written ++ l) taken
          ∙ append_order t.written t.delivered (contents t.pipe) done (contents q) s.order shape;
    }
Writes-Streams t killed bs w s (gives_up q done left v same shape split ne full why) =
    let taken : take (used q - used t.pipe) bs ≡ done =
      ap (take (used q - used t.pipe)) split ∙ grown t.pipe q done left shape in
    record {
      valid = v;
      order =
          ap (λ l. t.written ++ l) taken
          ∙ append_order t.written t.delivered (contents t.pipe) done (contents q) s.order shape;
    }

Reads-Streams :
    (t : Traffic) (killed : Bool) (n : ℕ) (r : Read)
    → Streams t
    → Reads killed n t.pipe r
    → Streams (after_read t r)
Reads-Streams t killed n r s (takes q v same rest why) = record {
  valid = v;
  order =
      s.order
      ∙ ap (λ l. t.delivered ++ l) (sym (take-append-drop n (contents t.pipe)))
      ∙ sym (append_assoc t.delivered (take n (contents t.pipe)) (drop n (contents t.pipe)))
      ∙ ap (λ l. (t.delivered ++ take n (contents t.pipe)) ++ l) (sym rest);
}
Reads-Streams t killed n r s (rests nil writer alive) = record { valid = s.valid; order = s.order }
Reads-Streams t killed n r s (quits nil writer dead) = record { valid = s.valid; order = s.order }

turn-Streams : (c : Call) (t : Traffic) → Streams t → Streams (turn c t)
unfolding turn
turn-Streams (writes killed bs) t s =
    Writes-Streams t killed bs (pipewrite killed bs t.pipe) s
      (pipewrite-Writes killed bs t.pipe s.valid)
turn-Streams (reads killed n) t s =
    Reads-Streams t killed n (piperead killed n t.pipe) s (piperead-Reads killed n t.pipe s.valid)

turns-Streams : (cs : List Call) (t : Traffic) → Streams t → Streams (turns cs t)
unfolding turns
turns-Streams [] t s = s
turns-Streams (c ∷ cs) t s = turns-Streams cs (turn c t) (turn-Streams c t s)

new_pipe-Streams : (page : ℕ → ℕ) → Streams (opened page)
unfolding new_pipe contents used slice
new_pipe-Streams page = record { valid = omega arith; order = refl }

-- However its readers and writers interleave, sleep and are killed, a pipe delivers the bytes that
-- were put into it in their order: they are the bytes delivered followed by the contents, of which
-- there are never more than the size of the ring.
pub pipe_fifo :
    (page : ℕ → ℕ) (cs : List Call)
    → let t = turns cs (opened page) in
      (t.written ≡ t.delivered ++ contents t.pipe) × (length (contents t.pipe) ≤ pipe_size)
pipe_fifo page cs =
    let s = turns-Streams cs (opened page) (new_pipe-Streams page) in
    (s.order, omega (arith, length-contents (turns cs (opened page)).pipe, s.valid.room))
