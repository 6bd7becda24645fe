-- ===== src/Logfile/Examples.antt =====
-- Escaped log lines, a rotation, and a follower.
use pm.Logfile.Escape.{whole, short, write_escaped_line, returned, failed}
use pm.Logfile.Escape.Laws.{
  escape_all, read_all, read_all-escape_all, sound_output, first_line, has_newline,
  write_escaped_line_lem,
}
use pm.Logfile.Rotation.{fails_after, Files, plan, rotate, Staged}
use pm.Logfile.Rotation.Blocks.{Splits, plan-Splits}
use pm.Logfile.Rotation.Commit.{Rotates, rotate-Rotates}
use pm.Logfile.Follow.{Source, stdout, seen, initial_state}
use pm.Logfile.Follow.Lines.{Poll, unread, reads, reads_all}
use pm.Logfile.Follow.Appends.{run_polls}
use pm.Logfile.Follow.Delivery.{Delivers, at_end, grown_text, run_polls-Delivers}
use pm.Prelude.{
  suc, ◌≡◌, refl, Bool, true, false, none, some, List, [], ◌∷◌, ◌++◌, length, take, Text, codes,
  same, text_le, get, put,
}

-- A line with a tab and a bell, and what follows it.
abbrev noisy : Text
noisy = b'a' ∷ 9 ∷ 7 ∷ 10 ∷ b'b' ∷ []

noisy-escaped :
    write_escaped_line noisy (sound_output [])
    ≡ returned (record {
      output = sound_output (b'a' ∷ 92 ∷ b't' ∷ 92 ∷ b'a' ∷ 92 ∷ b'n' ∷ 10 ∷ []);
      count = 4;
      complete = true;
    })
unfolding write_escaped_line
noisy-escaped = refl

-- The writer takes one byte of the first escape: the plain bytes count, the tab does not.
noisy-cut :
    write_escaped_line noisy (record { text = []; script = whole ∷ short 1 ∷ [] })
    ≡ failed (record {
      output = record { text = b'a' ∷ 92 ∷ []; script = [] };
      count = 1;
      complete = false;
    })
unfolding write_escaped_line
noisy-cut = refl

write_escaped_line_lem_example :
    write_escaped_line noisy (sound_output (codes "> "))
    ≡ returned (record {
      output = sound_output (codes "> " ++ escape_all (first_line noisy));
      count = length (first_line noisy);
      complete = has_newline noisy;
    })
write_escaped_line_lem_example = write_escaped_line_lem noisy (codes "> ")

read_all-escape_all_example : read_all (suc (length noisy)) (escape_all noisy) ≡ some noisy
read_all-escape_all_example = read_all-escape_all noisy

-- A day whose first two digits are those of a year.
abbrev pub dated : Text → Bool
dated t = same (take 2 t) (codes "20")

abbrev old_line : Text
old_line = codes "2026-05-30 up" ++ 10 ∷ []

abbrev new_line : Text
new_line = codes "[2026-06-01 08:00] down" ++ 10 ∷ []

abbrev pub log : Text
log = old_line ++ codes "trace" ++ 10 ∷ new_line

abbrev pub june : Text
june = codes "2026-06-01"

abbrev log_staged : Staged
log_staged = record {
  archives = (codes "2026-05-30", old_line ++ codes "trace" ++ 10 ∷ []) ∷ [];
  current = new_line;
}

log-planned : plan dated june log ≡ some log_staged
unfolding plan same text_le get put
log-planned = refl

plan-Splits_example : Splits dated june log log_staged
plan-Splits_example = plan-Splits dated june log log_staged log-planned

abbrev pub log_files : Files
log_files = (codes "/l/web.log", log) ∷ []

-- The disk is full after three bytes of the archive.
rotate-Rotates_example :
    Rotates dated
      (λ p. true)
      june
      (codes "/l/web.log")
      log_files
      (rotate dated june true
        (record { appending = fails_after 3 ∷ []; replaces = true; undoes = λ p. true })
        (codes "/l/web.log")
        log_files)
rotate-Rotates_example =
    rotate-Rotates dated june true
      (record { appending = fails_after 3 ∷ []; replaces = true; undoes = λ p. true })
      (codes "/l/web.log") log_files

abbrev web_source : Source
web_source = record { app_name = codes "web"; path = codes "/l/web.log"; stream = stdout }

-- A line that comes in three parts: one poll reads short, one fails.
abbrev polls : List Poll
polls =
    record { grown = codes "one" ++ 10 ∷ codes "tw"; outcome = reads 5; at = 1 }
    ∷ record { grown = codes "o"; outcome = unread; at = 2 }
    ∷ record { grown = 10 ∷ []; outcome = reads_all; at = 3 }
    ∷ []

run_polls-Delivers_example :
    Delivers
      (λ t. none)
      web_source
      (grown_text polls)
      (run_polls
        (λ t. none)
        7
        polls
        log
        (initial_state web_source (seen 7 (length log) (λ a n. none)))).0
run_polls-Delivers_example =
    run_polls-Delivers (λ t. none) web_source 7 log []
      (initial_state web_source (seen 7 (length log) (λ a n. none))) polls
      (at_end log (λ a n. none)) refl
