-- ===== src/Client/FileParser/File/Contents.antt =====
-- What parse_message of client/src/fileparser.c makes of a file.
use pvs_kp.Base.{ℕ, List, [], ◌∷◌}
use pvs_kp.Client.Memory.{Memory}
use pvs_kp.Client.FileParser.{trim}

abbrev pub trimmed : List (List ℕ) → List (List ℕ)
trimmed [] = []
trimmed (line ∷ lines) = trim line ∷ trimmed lines
