-- ===== src/Logfile/Writer/Bytes.antt =====
-- Writing in lines is writing byte by byte.
use mathlib.Core.List.{append_assoc, append-nil}
use pm.Logfile.Escape.{newline}
use pm.Logfile.Escape.Laws.{escape_byte, first_line, escape_all, has_newline}
use pm.Logfile.Rotation.{Files, text_at}
use pm.Logfile.Writer.{
  write_prefix, set_date, rotate_path, ensure_current, check_file, open_append_file, reopen,
  then_do, ensure_append_boundary, close_file, Turn, Environment, Handle, no_file, on_path,
  detached, Writer, Step, grow, grow_files, append_text, begin_line, Outcome, after_bytes,
}
use pm.Prelude.{
  ℕ, suc, ◌+◌, ◌≡◌, refl, sym, ap, ◌∙◌, inl, inr, Bool, true, false, none, some, [], ◌∷◌, ◌++◌,
  arith, ◌==◌, if◌then◌else◌, Bool-cases, length, drop, Text, put, put-put, get-put_self,
}

-- One byte, with its escape, in a line that was begun.
abbrev pub put_byte : ℕ → Writer → Writer
put_byte b w = append_text (escape_byte b) (record w { at_line_start = b == newline })

-- The reference: a line is begun where none is open, and each byte is written on its own.
unfoldable pub feed : Environment → Text → Writer → Outcome
unfolding begin_line
feed e [] w = (0, none, w)
feed e (b ∷ s) w =
    let begun = begin_line e w in
    let rest = feed e s (put_byte b begun.1) in
    elim begun.0 [ some x ↦ (0, some x, begun.1) | none ↦ after_bytes 1 rest ]

abbrev pub is_open : Handle → Bool
is_open no_file = false
is_open on_path = true
is_open (detached u) = true

-- A line is begun, there is a file for it, and every raw write will succeed.
pub record IsReady (w : Writer) : Type 0 where
  pub sound : w.script ≡ []
  pub begun : w.at_line_start ≡ false
  pub opened : is_open w.file ≡ true

-- Between writes: there is a file if a line is begun.
pub record IsLive (w : Writer) : Type 0 where
  pub sound : w.script ≡ []
  pub opened : w.at_line_start ≡ false → is_open w.file ≡ true

-- A piece of a line.
abbrev pub logged : Text → Bool → Writer → Writer
logged t ends w = append_text t (record w { at_line_start = ends })

grow-grow : (t u : Text) (h : Handle) → grow u (grow t h) ≡ grow (t ++ u) h
grow-grow t u no_file = refl
grow-grow t u on_path = refl
grow-grow t u (detached v) = ap detached (append_assoc v t u)

grow_files-grow_files :
    (t u path : Text) (h : Handle) (files : Files)
    → grow_files (grow t h) path u (grow_files h path t files) ≡ grow_files h path (t ++ u) files
grow_files-grow_files t u path no_file files = refl
grow_files-grow_files t u path on_path files =
    put-put path (text_at path files ++ t)
      (text_at path (put path (text_at path files ++ t) files) ++ u) files
    ∙ ap (λ x. put path x files)
        (ap (λ x. x ++ u) (text_at-put_self path (text_at path files ++ t) files)
          ∙ append_assoc (text_at path files) t u)
  where
    text_at-put_self : (k x : Text) (m : Files) → text_at k (put k x m) ≡ x
    text_at-put_self k x m = rw (get-put_self k x m, text_at) refl
grow_files-grow_files t u path (detached v) files = refl

pub grow-is_open : (h : Handle) → is_open h ≡ true → (u : Text) → is_open (grow u h) ≡ true
grow-is_open no_file o u = o
grow-is_open on_path o u = refl
grow-is_open (detached v) o u = refl

logged-logged :
    (t u : Text) (a b : Bool) (w : Writer) → logged u b (logged t a w) ≡ logged (t ++ u) b w
logged-logged t u a b w =
    ap
      (λ h. record w {
        file = h;
        files = grow_files (grow t w.file) w.path u (grow_files w.file w.path t w.files);
        at_line_start = b;
      })
      (grow-grow t u w.file)
    ∙ ap (λ f. record w { file = grow (t ++ u) w.file; files = f; at_line_start = b })
        (grow_files-grow_files t u w.path w.file w.files)

-- The rest of a line that was begun, byte by byte.
pub begin_line-started :
    (e : Environment) (w : Writer)
    → w.at_line_start ≡ true
    → begin_line e w
      ≡ then_do
          (ensure_current e (e.turn w.ticks) (record w { ticks = w.ticks + 1 }))
          (write_prefix e (e.turn w.ticks))
unfolding begin_line
begin_line-started e w h = rw h refl

pub begin_line-begun :
    (e : Environment) (w : Writer) → w.at_line_start ≡ false → begin_line e w ≡ (none, w)
unfolding begin_line
begin_line-begun e w h = rw h refl

pub feed-begun :
    (e : Environment) (b : ℕ) (s : Text) (w : Writer)
    → w.at_line_start ≡ false
    → feed e (b ∷ s) w ≡ after_bytes 1 (feed e s (put_byte b w))
unfolding feed
feed-begun e b s w h =
    ap
      (λ (x : Step). elim x.0 [
        | some y ↦ (0, some y, x.1)
        | none ↦ after_bytes 1 (feed e s (put_byte b x.1))
      ])
      (begin_line-begun e w h)

put_byte-logged : (b : ℕ) (w : Writer) → put_byte b w ≡ logged (escape_byte b) (b == newline) w
put_byte-logged b w = refl

after_bytes_once : (n : ℕ) (x : Outcome) → after_bytes 1 (after_bytes n x) ≡ after_bytes (suc n) x
after_bytes_once n (k, y, w) = ap (λ i. (i, y, w)) (omega arith)

-- Feeding a text to a line that was begun: the line first, and then what is left.
pub feed_line :
    (e : Environment) (b : ℕ) (s : Text) (w : Writer)
    → w.at_line_start ≡ false
    → feed e (b ∷ s) w
      ≡ after_bytes (length (first_line (b ∷ s))) (
          feed e
            (drop (length (first_line (b ∷ s))) (b ∷ s))
            (logged (escape_all (first_line (b ∷ s))) (has_newline (b ∷ s)) w))
unfolding first_line escape_all
feed_line e b [] w h = elim (Bool-cases (b == newline)) [
  | inl n ↦
      feed-begun e b [] w h
      ∙ rw n
          (ap (λ t. after_bytes 1 (feed e [] (logged t true w))) (sym (append-nil (escape_byte b))))
  | inr n ↦
      feed-begun e b [] w h
      ∙ rw n (
          ap (λ t. after_bytes 1 (feed e [] (logged t false w))) (sym (append-nil (escape_byte b))))
]
feed_line e b (c ∷ s) w h = elim (Bool-cases (b == newline)) [
  | inl n ↦
      feed-begun e b (c ∷ s) w h
      ∙ rw n (
          ap (λ t. after_bytes 1 (feed e (c ∷ s) (logged t true w)))
            (sym (append-nil (escape_byte b))))
  | inr n ↦
      let w' = logged (escape_byte b) false w in
      let line = first_line (c ∷ s) in
      let rest = drop (length line) (c ∷ s) in
      feed-begun e b (c ∷ s) w h
      ∙ rw n (
          ap (after_bytes 1) (feed_line e c s w' refl)
          ∙ (after_bytes_once (length line)
                (feed e rest (logged (escape_all line) (has_newline (c ∷ s)) w'))
              ∙ ap (λ v. after_bytes (suc (length line)) (feed e rest v))
                  (logged-logged (escape_byte b) (escape_all line) false (has_newline (c ∷ s)) w)))
]

-- No step touches the script.
pub then_do-script :
    (x : Step) (f : Writer → Step)
    → ((w : Writer) → (f w).1.script ≡ w.script)
    → (then_do x f).1.script ≡ x.1.script
then_do-script (none, w) f h = h w
then_do-script (some y, w) f h = refl

close_file-script : (t : Turn) (w : Writer) → (close_file t w).1.script ≡ w.script
unfolding close_file
close_file-script t w = ground arith

rotate_path-script :
    (e : Environment) (t : Turn) (w : Writer) → (rotate_path e t w).1.script ≡ w.script
unfolding rotate_path
rotate_path-script e t w = refl

maybe_rotate-script :
    (e : Environment) (t : Turn) (b : Bool) (w : Writer)
    → (if b then rotate_path e t w else (none, w)).1.script ≡ w.script
maybe_rotate-script e t true w = rotate_path-script e t w
maybe_rotate-script e t false w = refl

open_append_file-script : (t : Turn) (w : Writer) → (open_append_file t w).1.script ≡ w.script
unfolding open_append_file
open_append_file-script t w = ground arith

ensure_append_boundary-script :
    (t : Turn) (w : Writer) → (ensure_append_boundary t w).1.script ≡ w.script
unfolding ensure_append_boundary
ensure_append_boundary-script t w = ground arith

reopen-script :
    (e : Environment) (t : Turn) (b : Bool) (w : Writer) → (reopen e t b w).1.script ≡ w.script
unfolding reopen
reopen-script e t b w =
    let turned = λ (x : Writer). if b then rotate_path e t x else (none, x) in
    let a = then_do (close_file t w) turned in
    let c = then_do a (open_append_file t) in
    then_do-script (then_do c (ensure_append_boundary t)) (set_date e t) (λ x. refl)
    ∙ (then_do-script c (ensure_append_boundary t) (ensure_append_boundary-script t)
        ∙ (then_do-script a (open_append_file t) (open_append_file-script t)
            ∙ (then_do-script (close_file t w) turned (maybe_rotate-script e t b)
                ∙ close_file-script t w)))

check_file-script :
    (e : Environment) (t : Turn) (w : Writer) → (check_file e t w).1.script ≡ w.script
unfolding check_file
check_file-script e t w = ground (arith, reopen-script e t false w)

pub ensure_current-script :
    (e : Environment) (t : Turn) (w : Writer) → (ensure_current e t w).1.script ≡ w.script
unfolding ensure_current
ensure_current-script e t w = ground (arith, reopen-script e t true w, check_file-script e t w)
