-- ===== src/Cron.antt =====
-- The package cron: one schedule entry for each name.
use pm.Prelude.{
  ◌≡◌, Bool, true, false, Option, none, some, arith, if◌then◌else◌, Text, same, is_empty, Dict, get,
  put, remove, get-put, get-remove,
}

-- The wrapped scheduler's entries: the expression that each name is armed with. Which expressions
-- parse is for the cron library to say.
abbrev pub Entries : Type 0
Entries = Dict Text

-- Scheduler.Register; the Boolean is whether it returned no error. An old entry goes first, so a
-- rejected expression leaves the name without one.
unfoldable pub register : (Text → Bool) → Text → Text → Entries → Bool × Entries
register parses name schedule entries =
    let cleared = remove name entries in
    if is_empty schedule
    then (true, cleared)
    else (if parses schedule then (true, put name schedule cleared) else (false, cleared))

-- What a name is armed with after Register.
unfoldable pub armed_with : (Text → Bool) → Text → Option Text
armed_with parses schedule =
    if is_empty schedule then none else (if parses schedule then some schedule else none)

-- Register arms the name with the expression, if it parses, and changes no other name's entry.
pub get-register :
    (parses : Text → Bool) (name schedule j : Text) (entries : Entries)
    → get j (register parses name schedule entries).1
      ≡ (if same j name then armed_with parses schedule else get j entries)
unfolding register armed_with
get-register parses name schedule j entries =
    ground (arith, get-remove j name entries, get-put j name schedule (remove name entries))
