-- ===== src/Logfile/Writer/Reference.antt =====
-- Write against the reference.
use pm.Logfile.Escape.{
  write_escaped_line, Write, failed, returned, newline, write, write_to, write_as,
}
use pm.Logfile.Escape.Laws.{
  write_escaped_line_lem, has_newline, escape_all, first_line, sound_output,
}
use pm.Logfile.Writer.{
  Outcome, after_bytes, append_text, write_log, after_line, write_from, line_failed, Environment,
  Turn, Handle, no_file, on_path, detached, Writer, Step, then_do, line_output, ensure_current,
  write_prefix, begin_line,
}
use pm.Logfile.Writer.Bytes.{
  feed_line, put_byte, feed, logged, feed-begun, begin_line-started, begin_line-begun, is_open,
  IsReady, IsLive, grow-is_open, ensure_current-script,
}
use pm.Prelude.{
  ℕ, zero, suc, ◌+◌, ◌≤◌, ◌≡◌, refl, sym, ap, ◌∙◌, subst, ◌⊎◌, inl, inr, Bool, true, false, none,
  some, List, [], ◌∷◌, arith, ◌==◌, if◌then◌else◌, Bool-cases, length, drop, Text,
}

Handle-cases : (h : Handle) → (h ≡ no_file) ⊎ (is_open h ≡ true)
Handle-cases no_file = inl refl
Handle-cases on_path = inr refl
Handle-cases (detached u) = inr refl

line_output-open : (h : Handle) → is_open h ≡ true → line_output h [] ≡ sound_output []
line_output-open no_file o = absurd (ground (arith, o))
line_output-open on_path o = refl
line_output-open (detached u) o = refl

write_prefix-IsReady :
    (e : Environment) (t : Turn) (w : Writer)
    → w.script ≡ []
    → (write_prefix e t w).0 ≡ none
    → IsReady (write_prefix e t w).1
unfolding write_prefix write write_to write_as
write_prefix-IsReady e t w s h = elim (Handle-cases w.file) [
  | inl n ↦ absurd (ground (arith, s, h, n))
  | inr o ↦
      let sound : line_output w.file w.script ≡ sound_output [] =
        ap (line_output w.file) s ∙ line_output-open w.file o in
      rw (sound, write_prefix)
        (record { sound = refl; begun = refl; opened = grow-is_open w.file o _ })
]

begin_line-IsReady :
    (e : Environment) (w : Writer)
    → IsLive w
    → (begin_line e w).0 ≡ none
    → IsReady (begin_line e w).1
begin_line-IsReady e w v h = elim (Bool-cases w.at_line_start) [
  | inr b ↦
      subst (λ (x : Step). IsReady x.1) (sym (begin_line-begun e w b))
        (record { sound = v.sound; begun = b; opened = v.opened b })
  | inl b ↦
      let t = e.turn w.ticks in
      let q = begin_line-started e w b in
      let u = record w { ticks = w.ticks + 1 } in
      subst (λ (x : Step). IsReady x.1) (sym q)
        (then_ready t (ensure_current e t u) (ensure_current-script e t u ∙ v.sound)
          (ap (λ (x : Step). x.0) (sym q) ∙ h))
]
  where
    then_ready :
        (t : Turn) (x : Step)
        → x.1.script ≡ []
        → (then_do x (write_prefix e t)).0 ≡ none
        → IsReady (then_do x (write_prefix e t)).1
    then_ready t (none, u) s k = write_prefix-IsReady e t u s k
    then_ready t (some y, u) s k = absurd (ground (arith, k))

after_line-logged :
    (v : Writer) (t : Text) (n : ℕ) (ends : Bool)
    → IsReady v
    → after_line v (record { output = sound_output t; count = n; complete = ends })
      ≡ logged t ends v
after_line-logged v t n ends r = ap2 (sym r.sound) (flag ends)
  where
    flag : (c : Bool) → (if c then true else v.at_line_start) ≡ c
    flag true = refl
    flag false = r.begun

    ap2 :
        {s s' : List Write} {a b : Bool}
        → s ≡ s'
        → a ≡ b
        → append_text t (record v { script = s; at_line_start = a })
          ≡ append_text t (record v { script = s'; at_line_start = b })
    ap2 {s} {s'} {a} {b} p q =
        ap (λ x. append_text t (record v { script = x; at_line_start = a })) p
        ∙ ap (λ x. append_text t (record v { script = s'; at_line_start = x })) q

length-drop_le : (n : ℕ) (s : Text) → length (drop n s) ≤ length s
length-drop_le zero s = omega arith
length-drop_le (suc n) [] = omega arith
length-drop_le (suc n) (b ∷ s) = omega (arith, length-drop_le n s)

-- A line takes at least one byte.
length-rest_le : (b : ℕ) (s : Text) → length (drop (length (first_line (b ∷ s))) (b ∷ s)) ≤ length s
unfolding first_line
length-rest_le b s = elim (Bool-cases (b == newline)) [
  | inl e ↦ rw e (omega arith)
  | inr e ↦ rw e (length-drop_le (length (first_line s)) s)
]

write_line :
    (b : ℕ) (s : Text) (v : Writer)
    → IsReady v
    → write_escaped_line (b ∷ s) (line_output v.file v.script)
      ≡ returned (record {
        output = sound_output (escape_all (first_line (b ∷ s)));
        count = length (first_line (b ∷ s));
        complete = has_newline (b ∷ s);
      })
write_line b s v r =
    ap (write_escaped_line (b ∷ s))
      (ap (line_output v.file) r.sound ∙ line_output-open v.file r.opened)
    ∙ write_escaped_line_lem (b ∷ s) []

logged-IsLive : (t : Text) (ends : Bool) (v : Writer) → IsReady v → IsLive (logged t ends v)
logged-IsLive t ends v r = record { sound = r.sound; opened = λ h. grow-is_open v.file r.opened t }

-- One round of the loop, once the line is begun.
write_round :
    (e : Environment) (n b : ℕ) (s : Text) (v : Writer)
    → IsReady v
    → ((rest : Text) (w : Writer)
        → length rest ≤ n
        → IsLive w
        → write_from e n rest w ≡ feed e rest w)
    → length s ≤ n
    → (elim (write_escaped_line (b ∷ s) (line_output v.file v.script)) [
      | failed x ↦ (x.count, some line_failed, after_line v x)
      | returned x ↦ after_bytes x.count (write_from e n (drop x.count (b ∷ s)) (after_line v x))
    ])
      ≡ after_bytes 1 (feed e s (put_byte b v))
write_round e n b s v r ih le =
    let line = first_line (b ∷ s) in
    let rest = drop (length line) (b ∷ s) in
    let ends = has_newline (b ∷ s) in
    rw (write_line b s v r) (
      ap (λ w. after_bytes (length line) (write_from e n rest w))
        (after_line-logged v (escape_all line) (length line) ends r)
      ∙ (ap (after_bytes (length line)) (
            ih rest (logged (escape_all line) ends v) (omega (arith, length-rest_le b s, le))
              (logged-IsLive (escape_all line) ends v r))
          ∙ (sym (feed_line e b s v r.begun) ∙ feed-begun e b s v r.begun)))

same_begun :
    (x : Step) (f g : Writer → Outcome)
    → (x.0 ≡ none → f x.1 ≡ g x.1)
    → (elim x.0 [ some z ↦ (0, some z, x.1) | none ↦ f x.1 ])
      ≡ (elim x.0 [ some z ↦ (0, some z, x.1) | none ↦ g x.1 ])
same_begun (none, u) f g h = h refl
same_begun (some z, u) f g h = refl

write_from-feed :
    (e : Environment) (n : ℕ) (p : Text) (w : Writer)
    → length p ≤ n
    → IsLive w
    → write_from e n p w ≡ feed e p w
unfolding write_from feed
write_from-feed e zero [] w h v = refl
write_from-feed e zero (b ∷ s) w h v = absurd (omega (arith, h))
write_from-feed e (suc n) [] w h v = refl
write_from-feed e (suc n) (b ∷ s) w h v =
    same_begun (begin_line e w)
      (λ u. elim (write_escaped_line (b ∷ s) (line_output u.file u.script)) [
        | failed x ↦ (x.count, some line_failed, after_line u x)
        | returned x ↦ after_bytes x.count (write_from e n (drop x.count (b ∷ s)) (after_line u x))
      ])
      (λ u. after_bytes 1 (feed e s (put_byte b u)))
      (λ c.
        write_round e n b s (begin_line e w).1 (begin_line-IsReady e w v c) (write_from-feed e n)
          (omega (arith, h)))

-- Write, which goes through its input line by line, does what beginning a line where none is open and
-- writing byte by byte does, whatever rotation or reopening fails. The raw writes take every byte,
-- those of the timestamps included, and a line that is open has a file.
pub write_log-feed :
    (e : Environment) (p : Text) (w : Writer)
    → w.is_closed ≡ false
    → IsLive w
    → write_log e p w ≡ feed e p w
unfolding write_log
write_log-feed e p w c v =
    not_taken w.is_closed _ _ c ∙ write_from-feed e (length p) p w (omega arith) v
  where
    not_taken : (b : Bool) (x y : Outcome) → b ≡ false → (if b then x else y) ≡ y
    not_taken true x y h = absurd (ground (arith, h))
    not_taken false x y h = refl
