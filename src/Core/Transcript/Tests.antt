-- ===== src/Core/Transcript/Tests.antt =====
-- A transcript file with one record, and one more.
use moot.Common.{◌≡◌, refl, some, [], ◌∷◌, ◌++◌, inr, arith}
use moot.Core.Proto.Json.{Json, end}
use moot.Core.Transcript.{Library, Directory, path_for, append, read_today}
use moot.Core.Transcript.RoundTrip.{IsWhole, read_today-append}

abbrev library : Library
library = record {
  loads = λ s. some (Json.obj end);
  dumps = λ v. "{}";
  strip = λ s. s;
  date_before = λ days wall. "today";
}

abbrev directory : Directory
directory name = some "{}\n"

read_today-append_example :
    (read_today library 0 (append library 0 (Json.obj end) directory)
      ≡ read_today library 0 directory ++ Json.obj end ∷ [])
    × IsWhole (append library 0 (Json.obj end) directory (path_for library 0 0))
read_today-append_example =
    read_today-append library 0 (Json.obj end) directory refl
      (record {
        loaded = refl;
        one_line = ((λ e. omega (arith, e)), ((λ e. omega (arith, e)), tt));
        inked = refl;
      })
      (inr ("{}", refl))
