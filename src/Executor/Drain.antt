-- ===== src/Executor/Drain.antt =====
-- `_drain` (apps/executor/src/executor/sandbox.py): a stream of chunks is read to its end, and only a
-- tail of it is kept. A byte is anything here.
use interview_helper.Prelude.{
  ℕ, suc, ◌+◌, ◌-◌, ◌≤◌, ◌≡◌, refl, ◌∙◌, sym, ap, true, List, [], ◌∷◌, ◌++◌, append-nil,
  append_assoc, arith, ltb, if◌then◌else◌, length, drop, length-append, All, All-append, min, max,
  inl, inr, Bool-cases, ltb→lt,
}

-- The bytes held, and the chunks that hold them, oldest first.
pub record Sink (A : Type 0) : Type 0 where
  pub held : ℕ
  pub chunks : List (List A)

module _ {A : Type 0} where
  -- The last `n` of a list: `xs[-n:]`
  abbrev pub tail_of : ℕ → List A → List A
  tail_of n xs = drop (length xs - n) xs

  unfoldable pub join : List (List A) → List A
  join [] = []
  join (c ∷ cs) = c ++ join cs

  -- `while held > budget and len(sink) > 1: held -= len(sink.popleft())`
  unfoldable pub trim : ℕ → ℕ → List (List A) → Sink A
  trim budget held [] = record { held = held; chunks = [] }
  trim budget held (c ∷ []) = record { held = held; chunks = c ∷ [] }
  trim budget held (c ∷ d ∷ rest) =
      let popped = trim budget (held - length c) (d ∷ rest) in
      if ltb budget held then popped else record { held = held; chunks = c ∷ d ∷ rest }

  unfoldable pub receive : ℕ → Sink A → List A → Sink A
  receive budget s chunk = trim budget (s.held + length chunk) (s.chunks ++ (chunk ∷ []))

  unfoldable pub drain_into : ℕ → Sink A → List (List A) → Sink A
  drain_into budget s [] = s
  drain_into budget s (chunk ∷ chunks) = drain_into budget (receive budget s chunk) chunks

  unfoldable pub drain : ℕ → List (List A) → Sink A
  drain budget chunks = drain_into budget (record { held = 0; chunks = [] }) chunks

  join-append : (xs ys : List (List A)) → join (xs ++ ys) ≡ join xs ++ join ys
  unfolding join
  join-append [] ys = refl
  join-append (c ∷ xs) ys =
      ap (λ rest. c ++ rest) (join-append xs ys) ∙ sym (append_assoc c (join xs) (join ys))

  join-snoc : (cs : List (List A)) (chunk : List A) → join (cs ++ (chunk ∷ [])) ≡ join cs ++ chunk
  unfolding join
  join-snoc cs chunk = join-append cs (chunk ∷ []) ∙ ap (λ rest. join cs ++ rest) (append-nil chunk)

  drop-prefix : (p ys : List A) (k : ℕ) → drop (length p + k) (p ++ ys) ≡ drop k ys
  drop-prefix [] ys k = ap (λ j. drop j ys) (omega arith)
  drop-prefix (x ∷ p) ys k =
      let step : suc (length p) + k ≡ suc (length p + k) = omega arith in
      ap (λ j. drop j (x ∷ p ++ ys)) step ∙ drop-prefix p ys k

  skipped :
      (n : ℕ) (p ys : List A)
      → min n (length p + length ys) ≤ length ys
      → length (p ++ ys) - n ≡ length p + (length ys - n)
  skipped n p ys enough = omega (arith, length-append p ys, enough)

  ends :
      (n : ℕ) (whole p ys : List A)
      → whole ≡ p ++ ys
      → min n (length whole) ≤ length ys
      → min n (length p + length ys) ≤ length ys
  ends n whole p ys split enough = omega (arith, ap length split, length-append p ys, enough)

  tail_of-append :
      (n : ℕ) (p ys : List A)
      → min n (length p + length ys) ≤ length ys
      → tail_of n (p ++ ys) ≡ tail_of n ys
  tail_of-append n p ys enough = rw (skipped n p ys enough) (drop-prefix p ys (length ys - n))

module _ {A : Type 0} (budget need limit : ℕ) (fits : need + limit ≤ budget + 1) where
  -- What a sink keeps of the bytes read so far.
  record Keeps (read : List A) (s : Sink A) : Type 0 where
    popped : List A
    whole : read ≡ popped ++ join s.chunks
    counted : s.held ≡ length (join s.chunks)
    enough : min need (length read) ≤ s.held
    small : All (λ c. length c ≤ limit) s.chunks

  pop-Keeps :
      (read : List A) (held : ℕ) (c d : List A) (rest : List (List A))
      → Keeps read (record { held = held; chunks = c ∷ d ∷ rest })
      → ltb budget held ≡ true
      → Keeps read (record { held = held - length c; chunks = d ∷ rest })
  unfolding join
  pop-Keeps read held c d rest keeps over = record {
    popped = keeps.popped ++ c;
    whole = keeps.whole ∙ sym (append_assoc keeps.popped c (join (d ∷ rest)));
    counted = omega (arith, keeps.counted, length-append c (join (d ∷ rest)));
    enough = omega (arith, fits, keeps.enough, keeps.small.0, ltb→lt budget held over);
    small = keeps.small.1;
  }

  trim-Keeps :
      (read : List A) (held : ℕ) (cs : List (List A))
      → Keeps read (record { held = held; chunks = cs })
      → Keeps read (trim budget held cs)
  unfolding trim join
  trim-Keeps read held [] keeps = keeps
  trim-Keeps read held (c ∷ []) keeps = keeps
  trim-Keeps read held (c ∷ d ∷ rest) keeps = elim (Bool-cases (ltb budget held)) [
    | inr fine ↦ rw fine keeps
    | inl over ↦
        rw over
          (trim-Keeps read (held - length c) (d ∷ rest) (pop-Keeps read held c d rest keeps over))
  ]

  push-Keeps :
      (read : List A) (s : Sink A) (chunk : List A)
      → length chunk ≤ limit
      → Keeps read s
      → Keeps
          (read ++ chunk)
          (record { held = s.held + length chunk; chunks = s.chunks ++ (chunk ∷ []) })
  push-Keeps read s chunk short keeps = record {
    popped = keeps.popped;
    whole =
        ap (λ bytes. bytes ++ chunk) keeps.whole
        ∙ append_assoc keeps.popped (join s.chunks) chunk
        ∙ ap (λ bytes. keeps.popped ++ bytes) (sym (join-snoc s.chunks chunk));
    counted =
        ap (λ n. n + length chunk) keeps.counted
        ∙ sym (length-append (join s.chunks) chunk)
        ∙ ap length (sym (join-snoc s.chunks chunk));
    enough = omega (arith, keeps.enough, length-append read chunk);
    small = All-append (λ c. length c ≤ limit) s.chunks (chunk ∷ []) keeps.small (short, tt);
  }

  receive-Keeps :
      (read : List A) (s : Sink A) (chunk : List A)
      → length chunk ≤ limit
      → Keeps read s
      → Keeps (read ++ chunk) (receive budget s chunk)
  unfolding receive join
  receive-Keeps read s chunk short keeps =
      trim-Keeps (read ++ chunk) (s.held + length chunk) (s.chunks ++ (chunk ∷ []))
        (push-Keeps read s chunk short keeps)

  drain_into-Keeps :
      (read : List A) (s : Sink A) (chunks : List (List A))
      → All (λ c. length c ≤ limit) chunks
      → Keeps read s
      → Keeps (read ++ join chunks) (drain_into budget s chunks)
  unfolding drain_into join
  drain_into-Keeps read s [] short keeps = rw (append-nil read) keeps
  drain_into-Keeps read s (chunk ∷ chunks) short keeps =
      rw (← append_assoc read chunk (join chunks)) (
        drain_into-Keeps (read ++ chunk) (receive budget s chunk) chunks short.1
          (receive-Keeps read s chunk short.0 keeps))

  trim-bounded :
      (read : List A) (held : ℕ) (cs : List (List A))
      → Keeps read (record { held = held; chunks = cs })
      → (trim budget held cs).held ≤ max budget limit
  unfolding trim join
  trim-bounded read held [] keeps = omega (arith, keeps.counted)
  trim-bounded read held (c ∷ []) keeps =
      omega (arith, keeps.counted, length-append c [], keeps.small.0)
  trim-bounded read held (c ∷ d ∷ rest) keeps = elim (Bool-cases (ltb budget held)) [
    | inr fine ↦ rw fine (ground (arith, fine))
    | inl over ↦
        rw over
          (trim-bounded read (held - length c) (d ∷ rest) (pop-Keeps read held c d rest keeps over))
  ]

  drain_into-bounded :
      (read : List A) (s : Sink A) (chunks : List (List A))
      → All (λ c. length c ≤ limit) chunks
      → Keeps read s
      → s.held ≤ max budget limit
      → (drain_into budget s chunks).held ≤ max budget limit
  unfolding drain_into receive
  drain_into-bounded read s [] short keeps bounded = bounded
  drain_into-bounded read s (chunk ∷ chunks) short keeps bounded =
      drain_into-bounded (read ++ chunk) (receive budget s chunk) chunks short.1
        (receive-Keeps read s chunk short.0 keeps)
        (trim-bounded (read ++ chunk) (s.held + length chunk) (s.chunks ++ (chunk ∷ []))
          (push-Keeps read s chunk short.0 keeps))

  empty-Keeps : Keeps [] (record { held = 0; chunks = [] })
  unfolding join
  empty-Keeps = record {
    popped = [];
    whole = refl;
    counted = refl;
    enough = omega arith;
    small = tt;
  }

  -- The bytes kept of a stream end as the stream does: its last `need` bytes are theirs, as long as
  -- no read returns more than `limit` bytes and `need + limit` is at most one more than the budget. And
  -- however long the stream is, they are no more than the budget, or one read if that is more.
  pub drain-tail_of :
      (chunks : List (List A))
      → All (λ c. length c ≤ limit) chunks
      → let kept = join (drain budget chunks).chunks in
        (tail_of need kept ≡ tail_of need (join chunks)) × (length kept ≤ max budget limit)
  unfolding drain
  drain-tail_of chunks short =
      let start : Sink A = record { held = 0; chunks = [] } in
      let keeps = drain_into-Keeps [] start chunks short empty-Keeps in
      let bounded = drain_into-bounded [] start chunks short empty-Keeps (omega arith) in
      let enough = (rw keeps.counted at keeps.enough) in
      let cut = tail_of-append need keeps.popped (join (drain budget chunks).chunks) (
        ends need (join chunks) keeps.popped (join (drain budget chunks).chunks) keeps.whole
          enough) in
      (rw keeps.whole (sym cut), rw keeps.counted at bounded)
