-- ===== src/Config/Lines/Runs.antt =====
-- The lines of a small file.
use tith.Base.{ℕ, ◌≡◌, refl, List, [], ◌∷◌, ok, err}
use tith.Config.Lines.{
  Line, missing_final_lf, prohibited_control, lines, split_terminator, trim_start, trim_end,
  prohibited_in_line, fields,
}
use tith.Wire.Address.{is_control}

-- A comment, an empty line, and " A b" with a tab behind it.
abbrev input : List ℕ
input = b';' ∷ b'x' ∷ 0xa ∷ 0xa ∷ 0x20 ∷ b'A' ∷ 0x20 ∷ b'b' ∷ 0x9 ∷ 0xa ∷ []

abbrev found : Line
found = record { number = 3; text = b'A' ∷ 0x20 ∷ b'b' ∷ [] }

run_lines : lines [] input ≡ ok (found ∷ [])
unfolding lines split_terminator trim_start trim_end prohibited_in_line is_control
run_lines = refl

run_unended :
    lines [] (b'A' ∷ []) ≡ err (record { file = []; number = 1; message = missing_final_lf })
unfolding lines
run_unended = refl

run_fields : fields found ≡ (b'A' ∷ []) ∷ (b'b' ∷ []) ∷ []
unfolding fields
run_fields = refl

-- The control character U+0085 is refused too.
run_next_line :
    lines [] (b'A' ∷ 0x85 ∷ 0xa ∷ [])
    ≡ err (record { file = []; number = 1; message = prohibited_control })
unfolding lines split_terminator prohibited_in_line is_control
run_next_line = refl
