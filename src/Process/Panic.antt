-- ===== src/Process/Panic.antt =====
-- The report of a panic (src/main.rs `main`), as the hook logs and prints it.
use pgfs.Prelude.{Option, none, some, ◌++◌, Str, codes}
use pgfs.Story.{Location}

-- What the hook is given: the payload as a `&str` or as a `String`, where it is one.
pub record Panic : Type 0 where
  pub location : Option Location
  pub str_payload : Option Str
  pub string_payload : Option Str

-- What it asks of the build, the system and the environment; `backtrace` is the text of the captured
-- one.
pub record Surroundings : Type 0 where
  pub version : Option Str
  pub rustc : Option Str
  pub os : Str
  pub arch : Str
  pub rust_backtrace : Option Str
  pub backtrace : Str

abbrev pub unwrap_or : Option Str → Str → Str
unwrap_or none d = d
unwrap_or (some s) d = s

abbrev pub or_else : Option Str → Option Str → Option Str
or_else none o = o
or_else (some s) o = some s

abbrev pub place : Option Location → Str
place none = codes "unknown:0"
place (some l) = l.file ++ (codes ":" ++ l.line)

abbrev pub payload : Panic → Str
payload p = unwrap_or (or_else p.str_payload p.string_payload) (codes "<non-string payload>")

-- The second line, which both texts share, and what follows.
abbrev pub metadata : Surroundings → Str
metadata s =
    codes "\npgfs v"
    ++ (unwrap_or s.version (codes "unknown")
        ++ (codes " on "
            ++ (s.os
                ++ (codes "/"
                    ++ (s.arch
                        ++ (codes ", built with "
                            ++ (unwrap_or s.rustc (codes "unknown")
                                ++ (codes ", RUST_BACKTRACE="
                                    ++ (unwrap_or s.rust_backtrace (codes "unset")
                                        ++ (codes "\nBacktrace:\n" ++ s.backtrace))))))))))

-- The text that is logged, and the one that is printed.
unfoldable pub report : Panic → Surroundings → Str × Str
report p s = (
  codes "panic at " ++ (place p.location ++ (codes ": " ++ (payload p ++ metadata s))),
  codes "pgfs (panic): " ++ (place p.location ++ (codes ": " ++ (payload p ++ metadata s))),
)
