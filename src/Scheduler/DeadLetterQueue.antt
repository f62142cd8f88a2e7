-- ===== src/Scheduler/DeadLetterQueue.antt =====
-- src/scheduler/dlq.ts. The file is the list of its lines and what stands behind the last newline. Only this code
-- writes the file, and an earlier run may have been cut short in it: what is JSON there is the text of an entry, which
-- reads back as the entry. `push` takes the entry that the source makes of its arguments and the time. A write to a
-- file that cannot be written leaves it as it was, and the error is caught.
pub mod Persistence
mod Examples
use roboppi.Base.{
  ℕ, String, Bool, true, false, Option, none, some, List, [], ◌∷◌, ◌++◌, length, leb, if◌then◌else◌,
}
use roboppi.Types.{Job, ErrorClass}

pub record DlqEntry : Type 0 where
  pub job : Job
  pub reason : String
  pub error_class : Option ErrorClass
  pub failed_at : ℕ
  pub attempt_count : ℕ

-- A line that is not blank. The text of one that is no JSON is only logged.
pub data Line : Type 0 where
  json : DlqEntry → Line
  corrupted : Line

-- Behind the last newline there is nothing but blanks, or a line without its newline.
pub data End : Type 0 where
  whole : End
  torn : Line → End

pub record DlqFile : Type 0 where
  pub lines : List Line
  pub end : End

-- `persist_path` is there if `persists` is; `file` is what stands in it, if it exists.
pub record DeadLetterQueue : Type 0 where
  pub entries : List DlqEntry
  pub max_size : ℕ
  pub persists : Bool
  pub file : Option DlqFile

unfoldable pub parse_lines : List Line → List DlqEntry
parse_lines [] = []
parse_lines (json e ∷ lines) = e ∷ parse_lines lines
parse_lines (corrupted ∷ lines) = parse_lines lines

abbrev pub torn_line : End → List Line
torn_line whole = []
torn_line (torn line) = line ∷ []

-- The file split at its newlines, without blank lines.
abbrev pub lines_of : Option DlqFile → List Line
lines_of none = []
lines_of (some file) = file.lines ++ torn_line file.end

unfoldable pub load_from_file : Option DlqFile → List DlqEntry
load_from_file file = parse_lines (lines_of file)

-- The constructor, with the file that it finds.
unfoldable pub new : ℕ → Bool → Option DlqFile → DeadLetterQueue
new max_size persists file = record {
  entries = if persists then load_from_file file else [];
  max_size = max_size;
  persists = persists;
  file = file;
}

unfoldable pub to_lines : List DlqEntry → List Line
to_lines [] = []
to_lines (e ∷ es) = json e ∷ to_lines es

-- `Array.shift`.
abbrev pub rest_of : List DlqEntry → List DlqEntry
rest_of [] = []
rest_of (e ∷ es) = es

abbrev pub first_of_list : List DlqEntry → Option DlqEntry
first_of_list [] = none
first_of_list (e ∷ es) = some e

-- The text of an entry behind the last newline, with a newline. Behind other text it is no JSON.
abbrev pub appended : DlqEntry → End → Line
appended e whole = json e
appended e (torn line) = corrupted

abbrev pub append_to : DlqEntry → Option DlqFile → DlqFile
append_to e none = record { lines = json e ∷ []; end = whole }
append_to e (some file) = record { lines = file.lines ++ appended e file.end ∷ []; end = whole }

unfoldable pub append_entry : Bool → DlqEntry → DeadLetterQueue → DeadLetterQueue
append_entry writable e q = if writable then record q { file = some (append_to e q.file) } else q

unfoldable pub rewrite_file : Bool → DeadLetterQueue → DeadLetterQueue
rewrite_file writable q =
    if writable
    then record q { file = some (record { lines = to_lines q.entries; end = whole }) }
    else q

unfoldable pub push : Bool → DlqEntry → DeadLetterQueue → DeadLetterQueue
push writable e q =
    let kept = if leb q.max_size (length q.entries) then rest_of q.entries else q.entries in
    let pushed = record q { entries = kept ++ e ∷ [] } in
    if q.persists then append_entry writable e pushed else pushed

unfoldable pub peek : DeadLetterQueue → Option DlqEntry
peek q = first_of_list q.entries

unfoldable pub pop : Bool → DeadLetterQueue → Option DlqEntry × DeadLetterQueue
pop writable q = elim q.entries [
  | [] ↦ (none, q)
  | e ∷ es ↦
      let popped = record q { entries = es } in
      (some e, (if q.persists then rewrite_file writable popped else popped))
]

abbrev pub size : DeadLetterQueue → ℕ
size q = length q.entries

unfoldable pub clear : Bool → DeadLetterQueue → DeadLetterQueue
clear writable q =
    let cleared = record q { entries = [] } in
    if q.persists then rewrite_file writable cleared else cleared

-- The calls of a queue that change it.
pub data Call : Type 0 where
  pushes : DlqEntry → Call
  pops clears : Call

unfoldable pub step : Call → DeadLetterQueue → DeadLetterQueue
step (pushes e) q = push true e q
step pops q = (pop true q).1
step clears q = clear true q

-- All calls, on a file that can be written.
unfoldable pub run : List Call → DeadLetterQueue → DeadLetterQueue
run [] q = q
run (c ∷ cs) q = run cs (step c q)
