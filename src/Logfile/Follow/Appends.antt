-- ===== src/Logfile/Follow/Appends.antt =====
-- The polls of a log that grows, from its end or, if it is new to the follower, from its start.
use mathlib.Core.List.{append-nil, append_assoc}
use pm.Logfile.Follow.{
  seen, Source, Entry, FollowState, scan_complete, new_entry, entries_of, complete_entries, is_of,
  restarted, read_state, poll_state, polled_entries,
}
use pm.Logfile.Follow.Lines.{
  take-length, reads, unread, unstatted, reads_all, read_of, Outcome, drop-length, IsLines,
  scan_more, Poll, seen_of, Observed, lines_of, entries_at, stamped, lines_of-append,
  lines_of-stamped,
}
use pm.Prelude.{
  ℕ, ◌-◌, ◌≤◌, ◌≡◌, refl, sym, ap, ◌∙◌, subst, ◌⊎◌, inl, inr, Bool, true, false, Option, some, List,
  [], ◌∷◌, ◌++◌, arith, ltb, ◌==◌, Bool-cases, length, take, drop, length-append, take-append-drop,
  Text,
}

-- The entries of some polls, the content after them, and the state.
unfoldable pub run_polls :
    (Text → Option ℕ) → ℕ → List Poll → Text → FollowState → List Entry × Text × FollowState
unfolding poll_state
run_polls parse_time file [] content st = ([], content, st)
run_polls parse_time file (p ∷ ps) content st =
    let grown = content ++ p.grown in
    let r = poll_state parse_time (seen_of file grown p.outcome) p.at st in
    let rest = run_polls parse_time file ps grown r.1 in
    (polled_entries r.0 ++ rest.0, rest.1, rest.2)

entries_at-append :
    (parse_time : Text → Option ℕ) (source : Source) (os ps : List Observed)
    → entries_at parse_time source (os ++ ps)
      ≡ entries_at parse_time source os ++ entries_at parse_time source ps
entries_at-append parse_time source [] ps = refl
entries_at-append parse_time source ((l, t) ∷ os) ps =
    ap (λ es. new_entry parse_time source l t ∷ es) (entries_at-append parse_time source os ps)

entries_of-stamped :
    (parse_time : Text → Option ℕ) (source : Source) (t : ℕ) (ls : List Text)
    → entries_of parse_time source t ls ≡ entries_at parse_time source (stamped t ls)
entries_of-stamped parse_time source t [] = refl
entries_of-stamped parse_time source t (l ∷ ls) =
    ap (λ es. new_entry parse_time source l t ∷ es) (entries_of-stamped parse_time source t ls)

-- Whether a poll reads to the end of the file.
abbrev pub is_full : Outcome → Bool
is_full reads_all = true
is_full (reads k) = false
is_full unread = false
is_full unstatted = false

-- Whether the last of some polls did, or else the one before them.
abbrev pub last_full : Bool → List Poll → Bool
last_full full [] = full
last_full full (p ∷ ps) = last_full (is_full p.outcome) ps

both_append : {a b c d : List Entry} → a ≡ b → c ≡ d → a ++ c ≡ b ++ d
both_append {a} {b} {c} {d} p q = ap (λ x. x ++ c) p ∙ ap (λ y. b ++ y) q

module _ (parse_time : Text → Option ℕ) (source : Source) (file : ℕ) (skipped : Text) where
  -- What was consumed of the content, as the entries say it.
  pub record Emits (content consumed rest : Text) (pending : Text) (es : List Entry) : Type 0 where
    pub observed : List Observed
    pub emitted : es ≡ entries_at parse_time source observed
    pub lines : IsLines consumed (lines_of observed) pending
    pub split : content ≡ skipped ++ (consumed ++ rest)

  -- The state of a follower on the file.
  pub record IsOn (consumed pending : Text) (st : FollowState) : Type 0 where
    pub of_source : st.source ≡ source
    pub on_file : st.info ≡ some file
    pub at_offset : st.offset ≡ length (skipped ++ consumed)
    pub holds : st.pending ≡ pending

  -- A follower that has not seen the file yet will begin at its start.
  pub record IsBefore (consumed pending : Text) (st : FollowState) : Type 0 where
    pub of_source : st.source ≡ source
    pub other_file : is_of file st.info ≡ false
    pub from_start : skipped ≡ []
    pub nothing : consumed ≡ []
    pub none_pending : pending ≡ []

  -- The follower after some polls; nothing is left unread if the last one read in full.
  pub record Follows (content : Text) (full : Bool) (st : FollowState) (es : List Entry)
      : Type 0 where
    pub consumed : Text
    pub rest : Text
    pub pending : Text
    pub caught_up : full ≡ true → rest ≡ []
    pub emits : Emits content consumed rest pending es
    pub place : IsOn consumed pending st ⊎ IsBefore consumed pending st

  restarted-keeps :
      (size : ℕ) (st : FollowState)
      → st.info ≡ some file
      → st.offset ≤ size
      → restarted file size st ≡ record st { info = some file }
  restarted-keeps size st i o =
      let a : is_of file st.info ≡ true = rw i (ground arith) in
      let b : ltb size st.offset ≡ false = ground (arith, o) in rw (a, b) refl

  restarted-anew :
      (size : ℕ) (st : FollowState)
      → is_of file st.info ≡ false
      → restarted file size st ≡ record st { info = some file; offset = 0; pending = [] }
  restarted-anew size st i = rw i refl

  restarted-IsOn :
      (consumed rest pending content : Text) (st : FollowState)
      → content ≡ skipped ++ (consumed ++ rest)
      → IsOn consumed pending st ⊎ IsBefore consumed pending st
      → IsOn consumed pending (restarted file (length content) st)
  restarted-IsOn consumed rest pending content st c (inl p) =
      let fits : st.offset ≤ length content = omega (
        arith,
        p.at_offset,
        ap length c,
        length-append skipped (consumed ++ rest),
        length-append consumed rest,
        length-append skipped consumed,
      ) in
      subst (IsOn consumed pending) (sym (restarted-keeps (length content) st p.on_file fits))
        (record {
          of_source = p.of_source;
          on_file = refl;
          at_offset = p.at_offset;
          holds = p.holds;
        })
  restarted-IsOn consumed rest pending content st c (inr p) =
      subst (IsOn consumed pending) (sym (restarted-anew (length content) st p.other_file))
        (record {
          of_source = p.of_source;
          on_file = refl;
          at_offset = sym (ap length (ap (λ t. t ++ consumed) p.from_start ∙ p.nothing));
          holds = sym p.none_pending;
        })

  -- A read of some of what is new.
  read_state-Follows :
      (content consumed bytes rest pending : Text) (at : ℕ) (st : FollowState) (es : List Entry)
      → Emits content consumed (bytes ++ rest) pending es
      → IsOn consumed pending st
      → let r = read_state parse_time (some bytes) at st in
        Emits content
          (consumed ++ bytes)
          rest
          (scan_complete [] (pending ++ bytes)).1
          (es ++ polled_entries r.0)
        × IsOn (consumed ++ bytes) (scan_complete [] (pending ++ bytes)).1 r.1
  unfolding read_state complete_entries
  read_state-Follows content consumed bytes rest pending at st es e p =
      let t = scan_complete [] (pending ++ bytes) in
      let holds : scan_complete [] (st.pending ++ bytes) ≡ t =
        ap (λ x. scan_complete [] (x ++ bytes)) p.holds in
      (
        record {
          observed = e.observed ++ stamped at t.0;
          emitted =
              both_append e.emitted (
                ap (λ s. entries_of parse_time s at (scan_complete [] (st.pending ++ bytes)).0)
                  p.of_source
                ∙ (ap (λ (x : List Text × Text). entries_of parse_time source at x.0) holds
                    ∙ entries_of-stamped parse_time source at t.0))
              ∙ sym (entries_at-append parse_time source e.observed (stamped at t.0));
          lines =
              subst (λ ls. IsLines (consumed ++ bytes) ls t.1)
                (sym (
                  lines_of-append e.observed (stamped at t.0)
                  ∙ ap (λ ls. lines_of e.observed ++ ls) (lines_of-stamped at t.0)))
                (scan_more consumed bytes (lines_of e.observed) pending e.lines);
          split = e.split ∙ ap (λ x. skipped ++ x) (sym (append_assoc consumed bytes rest));
        },
        record {
          of_source = p.of_source;
          on_file = p.on_file;
          at_offset = omega (
            arith,
            p.at_offset,
            length-append skipped consumed,
            length-append skipped (consumed ++ bytes),
            length-append consumed bytes,
          );
          holds = ap (λ (x : List Text × Text). x.1) holds;
        },
      )

  -- The file grows.
  grown-Emits :
      (content consumed rest pending more : Text) (es : List Entry)
      → Emits content consumed rest pending es
      → Emits (content ++ more) consumed (rest ++ more) pending es
  grown-Emits content consumed rest pending more es e = record {
    observed = e.observed;
    emitted = e.emitted;
    lines = e.lines;
    split =
        ap (λ t. t ++ more) e.split
        ∙ (append_assoc skipped (consumed ++ rest) more
            ∙ ap (λ t. skipped ++ t) (append_assoc consumed rest more));
  }

  -- The section from the offset to the end is what was not consumed.
  section_rest :
      (content consumed rest pending : Text) (st : FollowState)
      → content ≡ skipped ++ (consumed ++ rest)
      → IsOn consumed pending st
      → (drop st.offset content ≡ rest) × (length content - st.offset ≡ length rest)
  section_rest content consumed rest pending st c p =
      let whole : content ≡ (skipped ++ consumed) ++ rest =
        c ∙ sym (append_assoc skipped consumed rest) in
      (
        ap (λ n. drop n content) p.at_offset
            ∙ (ap (drop (length (skipped ++ consumed))) whole
                ∙ drop-length (skipped ++ consumed) rest),
        omega (arith, p.at_offset, ap length whole, length-append (skipped ++ consumed) rest),
      )

  empty_of_length : (xs : Text) → length xs ≡ 0 → xs ≡ []
  empty_of_length [] h = refl
  empty_of_length (x ∷ xs) h = absurd (omega (arith, h))

  -- A poll that leaves the content where it was.
  idle-Follows :
      (content consumed rest pending : Text) (full : Bool) (st : FollowState) (es : List Entry)
      → (full ≡ true → rest ≡ [])
      → Emits content consumed rest pending es
      → IsOn consumed pending st ⊎ IsBefore consumed pending st
      → Follows content full st (es ++ [])
  idle-Follows content consumed rest pending full st es u e p = record {
    consumed = consumed;
    rest = rest;
    pending = pending;
    caught_up = u;
    emits = subst (Emits content consumed rest pending) (sym (append-nil es)) e;
    place = p;
  }

  read-Follows :
      (content consumed bytes rest pending : Text) (full : Bool) (at : ℕ) (st : FollowState)
      (es : List Entry)
      → (full ≡ true → rest ≡ [])
      → Emits content consumed (bytes ++ rest) pending es
      → IsOn consumed pending st
      → Follows content full
          (read_state parse_time (some bytes) at st).1
          (es ++ polled_entries (read_state parse_time (some bytes) at st).0)
  read-Follows content consumed bytes rest pending full at st es u e p =
      let (f, q) = read_state-Follows content consumed bytes rest pending at st es e p in
      record {
        consumed = consumed ++ bytes;
        rest = rest;
        pending = (scan_complete [] (pending ++ bytes)).1;
        caught_up = u;
        emits = f;
        place = inl q;
      }

  -- A poll of the file once the state is on it.
  on_file-Follows :
      (content consumed rest pending : Text) (o : Outcome) (at : ℕ) (st : FollowState)
      (es : List Entry)
      → Emits content consumed rest pending es
      → IsOn consumed pending st
      → let r =
          read_state parse_time (read_of o content st.offset (length content - st.offset)) at st in
        Follows content (is_full o) r.1 (es ++ polled_entries r.0)
  on_file-Follows content consumed rest pending unstatted at st es e p =
      unfold read_state in
      idle-Follows content consumed rest pending false st es (λ h. absurd (ground (arith, h))) e
        (inl p)
  on_file-Follows content consumed rest pending unread at st es e p =
      unfold read_state in
      idle-Follows content consumed rest pending false st es (λ h. absurd (ground (arith, h))) e
        (inl p)
  on_file-Follows content consumed rest pending (reads k) at st es e p =
      let (d, n) = section_rest content consumed rest pending st e.split p in
      let section : take k (take (length content - st.offset) (drop st.offset content))
          ≡ take k rest =
        ap (take k) (
          ap (λ m. take m (drop st.offset content)) n
          ∙ (ap (take (length rest)) d ∙ take-length rest)) in
      subst
        (λ bytes.
          Follows content false (read_state parse_time (some bytes) at st).1
            (es ++ polled_entries (read_state parse_time (some bytes) at st).0))
        (sym section)
        (read-Follows content consumed (take k rest) (drop k rest) pending false at st es
          (λ h. absurd (ground (arith, h)))
          (subst (λ x. Emits content consumed x pending es) (sym (take-append-drop k rest)) e) p)
  on_file-Follows content consumed rest pending reads_all at st es e p =
      let (d, n) = section_rest content consumed rest pending st e.split p in
      let section : take (length content - st.offset) (drop st.offset content) ≡ rest =
        ap (λ m. take m (drop st.offset content)) n
        ∙ (ap (take (length rest)) d ∙ take-length rest) in
      subst
        (λ bytes.
          Follows content true (read_state parse_time (some bytes) at st).1
            (es ++ polled_entries (read_state parse_time (some bytes) at st).0))
        (sym section)
        (read-Follows content consumed rest [] pending true at st es (λ h. refl)
          (subst (λ x. Emits content consumed x pending es) (sym (append-nil rest)) e) p)

  -- A poll that finds the file.
  seen-Follows :
      (content consumed rest pending : Text) (o : Outcome) (at : ℕ) (st : FollowState)
      (es : List Entry)
      → Emits content consumed rest pending es
      → IsOn consumed pending st ⊎ IsBefore consumed pending st
      → let r = poll_state parse_time (seen file (length content) (read_of o content)) at st in
        Follows content (is_full o) r.1 (es ++ polled_entries r.0)
  unfolding poll_state
  seen-Follows content consumed rest pending o at st es e p =
      let s = restarted file (length content) st in
      let q = restarted-IsOn consumed rest pending content st e.split p in
      elim (Bool-cases (length content == s.offset)) [
        | inr b ↦ rw (b, poll_state) (on_file-Follows content consumed rest pending o at s es e q)
        | inl b ↦
            let (d, n) = section_rest content consumed rest pending s e.split q in
            rw (b, poll_state)
              (idle-Follows content consumed rest pending (is_full o) s es
                (λ h. empty_of_length rest (ground (arith, n, b))) e (inl q))
      ]

  grown_poll-Follows :
      (content g : Text) (o : Outcome) (at : ℕ) (full : Bool) (st : FollowState) (es : List Entry)
      → Follows content full st es
      → let r = poll_state parse_time (seen_of file (content ++ g) o) at st in
        Follows (content ++ g) (is_full o) r.1 (es ++ polled_entries r.0)
  grown_poll-Follows content g unstatted at full st es f =
      unfold poll_state in
      idle-Follows (content ++ g) f.consumed (f.rest ++ g) f.pending false st es
        (λ h. absurd (ground (arith, h)))
        (grown-Emits content f.consumed f.rest f.pending g es f.emits) f.place
  grown_poll-Follows content g unread at full st es f =
      seen-Follows (content ++ g) f.consumed (f.rest ++ g) f.pending unread at st es
        (grown-Emits content f.consumed f.rest f.pending g es f.emits) f.place
  grown_poll-Follows content g (reads k) at full st es f =
      seen-Follows (content ++ g) f.consumed (f.rest ++ g) f.pending (reads k) at st es
        (grown-Emits content f.consumed f.rest f.pending g es f.emits) f.place
  grown_poll-Follows content g reads_all at full st es f =
      seen-Follows (content ++ g) f.consumed (f.rest ++ g) f.pending reads_all at st es
        (grown-Emits content f.consumed f.rest f.pending g es f.emits) f.place

  pub run_polls-Follows :
      (ps : List Poll) (content : Text) (full : Bool) (st : FollowState) (es : List Entry)
      → Follows content full st es
      → let r = run_polls parse_time file ps content st in
        Follows r.1 (last_full full ps) r.2 (es ++ r.0)
  unfolding run_polls
  run_polls-Follows [] content full st es f =
      subst (Follows content full st) (sym (append-nil es)) f
  run_polls-Follows (p ∷ ps) content full st es f =
      let grown = content ++ p.grown in
      let r = poll_state parse_time (seen_of file grown p.outcome) p.at st in
      let rest = run_polls parse_time file ps grown r.1 in
      subst (Follows rest.1 (last_full (is_full p.outcome) ps) rest.2)
        (append_assoc es (polled_entries r.0) rest.0)
        (run_polls-Follows ps grown (is_full p.outcome) r.1 (es ++ polled_entries r.0)
          (grown_poll-Follows content p.grown p.outcome p.at full st es f))
