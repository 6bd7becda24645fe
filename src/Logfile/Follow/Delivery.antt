-- ===== src/Logfile/Follow/Delivery.antt =====
-- What a follower delivers of a log that grows.
use mathlib.Core.List.{append-nil, append_assoc, append_cancel_left}
use pm.Logfile.Follow.{seen, initial_state, is_of, Source, Entry, FollowState}
use pm.Logfile.Follow.Lines.{IsLines, Poll, Observed, lines_of, entries_at}
use pm.Logfile.Follow.Appends.{run_polls, last_full, Follows, run_polls-Follows}
use pm.Prelude.{
  ℕ, ◌≡◌, refl, sym, ap, ◌∙◌, subst, inl, inr, true, false, Option, List, [], ◌∷◌, ◌++◌, arith,
  length, Text,
}

-- The entries are those of the complete lines of a text, in order, each with some time at which it
-- was observed.
pub record Delivers (parse_time : Text → Option ℕ) (source : Source) (text : Text) (es : List Entry)
    : Type 0 where
  pub observed : List Observed
  pub pending : Text
  pub emitted : es ≡ entries_at parse_time source observed
  pub lines : IsLines text (lines_of observed) pending

-- Where a follower begins, and what it has then still to deliver of the content: nothing, at the end
-- of a file that exists, and everything, if the file is new or replaced the one that it followed.
pub data Start (source : Source) (file : ℕ) : Text → Text → FollowState → Type 0 where
  at_end :
      (content : Text) (read : ℕ → ℕ → Option Text)
      → Start source file content [] (initial_state source (seen file (length content) read))
  at_start :
      (content : Text) {st : FollowState}
      → st.source ≡ source
      → is_of file st.info ≡ false
      → Start source file content content st

abbrev pub grown_text : List Poll → Text
grown_text [] = []
grown_text (p ∷ ps) = p.grown ++ grown_text ps

run_polls-grown_text :
    (parse_time : Text → Option ℕ) (file : ℕ) (ps : List Poll) (content : Text) (st : FollowState)
    → (run_polls parse_time file ps content st).1 ≡ content ++ grown_text ps
unfolding run_polls
run_polls-grown_text parse_time file [] content st = sym (append-nil content)
run_polls-grown_text parse_time file (p ∷ ps) content st =
    run_polls-grown_text parse_time file ps (content ++ p.grown) _
    ∙ append_assoc content p.grown (grown_text ps)

-- What a follower that has read everything has emitted.
Follows-Delivers :
    (parse_time : Text → Option ℕ) (source : Source) (file : ℕ) (skipped content text : Text)
    (st : FollowState) (es : List Entry)
    → content ≡ skipped ++ text
    → Follows parse_time source file skipped content true st es
    → Delivers parse_time source text es
Follows-Delivers parse_time source file skipped content text st es c f =
    let whole : f.consumed ≡ text =
      sym (append-nil f.consumed)
      ∙ (ap (λ t. f.consumed ++ t) (sym (f.caught_up refl))
          ∙ append_cancel_left skipped (f.consumed ++ f.rest) text (sym f.emits.split ∙ c)) in
    record {
      observed = f.emits.observed;
      pending = f.pending;
      emitted = f.emits.emitted;
      lines = subst (λ t. IsLines t (lines_of f.emits.observed) f.pending) whole f.emits.lines;
    }

-- Following a log that is only appended to, with polls that may fail or read short, refines the list
-- of its lines: once a poll has read to the end, the entries are those of the complete lines that
-- were still to deliver at the start or appended since, each once and in order.
pub run_polls-Delivers :
    (parse_time : Text → Option ℕ) (source : Source) (file : ℕ) (content unseen : Text)
    (st : FollowState) (ps : List Poll)
    → Start source file content unseen st
    → last_full false ps ≡ true
    → Delivers parse_time source
        (unseen ++ grown_text ps)
        (run_polls parse_time file ps content st).0
run_polls-Delivers parse_time source file c u st ps (at_end content read) full =
    let s = initial_state source (seen file (length content) read) in
    let r = run_polls parse_time file ps content s in
    Follows-Delivers parse_time source file content r.1 (grown_text ps) r.2 r.0
      (run_polls-grown_text parse_time file ps content s)
      (subst (λ b. Follows parse_time source file content r.1 b r.2 r.0) full
        (run_polls-Follows parse_time source file content ps content false s [] (record {
          consumed = [];
          rest = [];
          pending = [];
          caught_up = λ h. refl;
          emits = record {
            observed = [];
            emitted = refl;
            lines = record { whole = refl; single = tt; unfinished = tt };
            split = sym (append-nil content);
          };
          place = inl (
              unfold initial_state in
              record {
                of_source = refl;
                on_file = refl;
                at_offset = ap length (sym (append-nil content));
                holds = refl;
              });
        })))
run_polls-Delivers parse_time source file c u st ps (at_start content s i) full =
    let r = run_polls parse_time file ps content st in
    Follows-Delivers parse_time source file [] r.1 (content ++ grown_text ps) r.2 r.0
      (run_polls-grown_text parse_time file ps content st)
      (subst (λ b. Follows parse_time source file [] r.1 b r.2 r.0) full
        (run_polls-Follows parse_time source file [] ps content false st [] (record {
          consumed = [];
          rest = content;
          pending = [];
          caught_up = λ h. absurd (ground (arith, h));
          emits = record {
            observed = [];
            emitted = refl;
            lines = record { whole = refl; single = tt; unfinished = tt };
            split = refl;
          };
          place = inr (record {
            of_source = s;
            other_file = i;
            from_start = refl;
            nothing = refl;
            none_pending = refl;
          });
        })))
