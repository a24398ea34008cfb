-- ===== src/Config/Tests.antt =====
-- internal/config/config.go: the theorems at work on a small file.
use r0rpc.Prelude.{String, none, List, [], ◌∷◌, arith}
use r0rpc.Prelude.Map.{Map, lookup, find}
use r0rpc.Prelude.Text.{trim_space, trim_left, trim_right}
use r0rpc.Config.{load}
use r0rpc.Config.Values.{get_int}
use r0rpc.Config.Bounds.{Loads, load-Loads}
use r0rpc.Config.File.{Line, parse_config_file}
use r0rpc.Config.File.Values.{AllRead, Parses, parse_config_file-Parses}

abbrev test_values : Map String String
test_values = record {
  entries =
      ("JWT_SECRET", "s3cret")
      ∷ ("BOOTSTRAP_ADMIN_PASSWORD", "admin")
      ∷ ("DEVICE_OFFLINE_SECONDS", "1")
      ∷ [];
}

load-Loads_example : Loads (load test_values)
unfolding get_int lookup find trim_space trim_left trim_right
load-Loads_example = load-Loads test_values (omega arith)

abbrev test_lines : List String
test_lines = "# settings" ∷ "SERVER_ID = node" ∷ "SERVER_ID='other'" ∷ []

parse_config_file-Parses_example :
    (lines : List Line) × AllRead test_lines lines
    × Parses 0 lines "SERVER_ID" none (parse_config_file test_lines)
parse_config_file-Parses_example = parse_config_file-Parses test_lines "SERVER_ID"
