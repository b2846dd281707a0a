-- ===== src/Runner/Files.antt =====
-- `read_wl_file` of src/utils.cpp, on the lines of a file: a line that starts with `###` begins a
-- section, whose first entry is the verdict that it names.
use count_buffy.Prelude.{
  ap, sym, ◌∙◌, refl, ℕ, ◌≡◌, Bool, true, false, List, [], ◌∷◌, ◌++◌, map, All, ◌==◌, if◌then◌else◌,
  Text, codes,
}

abbrev pub starts_with : Text → Text → Bool
starts_with s [] = true
starts_with [] (c ∷ cs) = false
starts_with (d ∷ ds) (c ∷ cs) = if d == c then starts_with ds cs else false

-- `line.rfind(s) != -1`
abbrev pub contains : Text → Text → Bool
contains [] s = starts_with [] s
contains (d ∷ ds) s = if starts_with (d ∷ ds) s then true else contains ds s

-- A character of ` \t\r\n`.
abbrev pub is_blank : ℕ → Bool
is_blank c = if c == b' ' then true else if c == 9 then true else if c == 13 then true else c == 10

abbrev pub has_text : Text → Bool
has_text [] = false
has_text (c ∷ cs) = if is_blank c then has_text cs else true

abbrev pub closed : List Text → List (List Text)
closed [] = []
closed (l ∷ ls) = (l ∷ ls) ∷ []

abbrev pub heading : Text → Text
heading line = if contains line (codes "UNSAT") then codes "UNSAT" else codes "SAT"

unfoldable pub sections : List Text → List Text → List (List Text)
sections [] current = closed current
sections (line ∷ lines) current =
    let fresh = sections lines (heading line ∷ []) in
    let longer = sections lines (current ++ line ∷ []) in
    let same = sections lines current in
    if starts_with line (codes "###")
    then closed current ++ fresh
    else if has_text line
    then longer
    else same

unfoldable pub read_wl_file : List Text → List (List Text)
unfolding sections
read_wl_file lines = sections lines []

-- A file that lists the sections, each under its heading.
abbrev pub printed : List (Bool × List Text) → List Text
printed [] = []
printed ((unsat, lines) ∷ secs) =
    (if unsat then codes "### UNSAT" else codes "### SAT") ∷ (lines ++ printed secs)

abbrev pub section : Bool × List Text → List Text
section (unsat, lines) = (if unsat then codes "UNSAT" else codes "SAT") ∷ lines

-- A line that is neither a heading nor blank.
abbrev pub IsLine : Text → Type 0
IsLine line = (starts_with line (codes "###") ≡ false) × (has_text line ≡ true)

append_nil : (ls : List Text) → ls ++ [] ≡ ls
append_nil [] = refl
append_nil (l ∷ ls) = ap (λ ms. l ∷ ms) (append_nil ls)

append-snoc : (ls : List Text) (m : Text) (ms : List Text) → (ls ++ m ∷ []) ++ ms ≡ ls ++ m ∷ ms
append-snoc [] m ms = refl
append-snoc (l ∷ ls) m ms = ap (λ ks. l ∷ ks) (append-snoc ls m ms)

sections-lines :
    (lines more current : List Text)
    → All IsLine lines
    → sections (lines ++ more) current ≡ sections more (current ++ lines)
unfolding sections
sections-lines [] more current h = ap (sections more) (sym (append_nil current))
sections-lines (line ∷ lines) more current h =
    rw
      (
        h.0.0,
        h.0.1,
        sections-lines lines more (current ++ line ∷ []) h.1,
        append-snoc current line lines,
      )
      refl

-- Behind a section that has been begun.
sections-printed :
    (secs : List (Bool × List Text)) (c : Text) (cs : List Text)
    → All (λ sec. All IsLine sec.1) secs
    → sections (printed secs) (c ∷ cs) ≡ (c ∷ cs) ∷ map section secs
unfolding sections
sections-printed [] c cs h = refl
sections-printed ((true, lines) ∷ secs) c cs h =
    ap (λ rest. (c ∷ cs) ∷ rest)
      (sections-lines lines (printed secs) (codes "UNSAT" ∷ []) h.0
        ∙ sections-printed secs (codes "UNSAT") lines h.1)
sections-printed ((false, lines) ∷ secs) c cs h =
    ap (λ rest. (c ∷ cs) ∷ rest)
      (sections-lines lines (printed secs) (codes "SAT" ∷ []) h.0
        ∙ sections-printed secs (codes "SAT") lines h.1)

-- Reading a file that lists sections, each under a heading with its verdict, gives the sections
-- back, when no line of a section is blank or begins with `###`.
pub read-printed :
    (secs : List (Bool × List Text))
    → All (λ sec. All IsLine sec.1) secs
    → read_wl_file (printed secs) ≡ map section secs
unfolding read_wl_file sections
read-printed [] h = refl
read-printed ((true, lines) ∷ secs) h =
    sections-lines lines (printed secs) (codes "UNSAT" ∷ []) h.0
    ∙ sections-printed secs (codes "UNSAT") lines h.1
read-printed ((false, lines) ∷ secs) h =
    sections-lines lines (printed secs) (codes "SAT" ∷ []) h.0
    ∙ sections-printed secs (codes "SAT") lines h.1
