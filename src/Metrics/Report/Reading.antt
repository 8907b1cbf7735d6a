-- ===== src/Metrics/Report/Reading.antt =====
-- Reading the counters back from the lines of the periodic export (src/metrics.rs).
use pgfs.Prelude.{
  ℕ, zero, suc, ◌<◌, ◌≡◌, ◌∙◌, refl, ap, Bool, true, false, ◌&&◌, codes, map, str_key, str_beq,
  ◌==◌, Option, none, some, List, [], ◌∷◌, ◌++◌, Str, u64_mod,
}
use pgfs.Dict.{get}
use pgfs.Metrics.{
  Counter, Metrics, lookup_count, getattr_count, setattr_count, read_count, write_count,
  create_count, mkdir_count, unlink_count, rmdir_count, rename_count, readdir_count, open_count,
  fsync_count, eio_count, enoent_count, eexist_count, enotempty_count, eisdir_count, enotdir_count,
  einval_count, replica_read_count, replica_fallback_count,
}
use pgfs.Metrics.Report.Fields.{
  fields, naming, numbering, name_in, starts_in_gap, fields-decimal, fields-name_in, fields-gap,
}
use pgfs.Metrics.Report.{decimal, line, op_fields, error_fields, replica_fields, export}

-- The names of the counters in the export.
abbrev pub name_of : Counter → Str
name_of lookup_count = codes "lookup"
name_of getattr_count = codes "getattr"
name_of setattr_count = codes "setattr"
name_of read_count = codes "read"
name_of write_count = codes "write"
name_of create_count = codes "create"
name_of mkdir_count = codes "mkdir"
name_of unlink_count = codes "unlink"
name_of rmdir_count = codes "rmdir"
name_of rename_count = codes "rename"
name_of readdir_count = codes "readdir"
name_of open_count = codes "open"
name_of fsync_count = codes "fsync"
name_of eio_count = codes "eio"
name_of enoent_count = codes "enoent"
name_of eexist_count = codes "eexist"
name_of enotempty_count = codes "enotempty"
name_of eisdir_count = codes "eisdir"
name_of enotdir_count = codes "enotdir"
name_of einval_count = codes "einval"
name_of replica_read_count = codes "reads"
name_of replica_fallback_count = codes "fallbacks"

abbrev pub all_counters : List Counter
all_counters =
    lookup_count ∷ getattr_count ∷ setattr_count ∷ read_count ∷ write_count ∷ create_count
    ∷ mkdir_count ∷ unlink_count ∷ rmdir_count ∷ rename_count ∷ readdir_count ∷ open_count
    ∷ fsync_count ∷ eio_count ∷ enoent_count ∷ eexist_count ∷ enotempty_count ∷ eisdir_count
    ∷ enotdir_count ∷ einval_count ∷ replica_read_count ∷ replica_fallback_count ∷ []

abbrev is_name : Option Str → Str → Bool
is_name none name = false
is_name (some found) name = found == name

is_name-some : (o : Option Str) (name : Str) → is_name o name ≡ true → o ≡ some name
is_name-some none name h = absurd (cc)
is_name-some (some found) name h = ap some ((str_key.same_iff found name).0 h)

-- The texts of a line have the names of their counters, and behind the first they start in a gap.
abbrev follow : List (Str × Counter) → Bool
follow [] = true
follow ((text, c) ∷ fs) = starts_in_gap text && (is_name (name_in [] text) (name_of c) && follow fs)

abbrev are_named : List (Str × Counter) → Bool
are_named [] = true
are_named ((text, c) ∷ fs) = is_name (name_in [] text) (name_of c) && follow fs

and_parts : (a b : Bool) → (a && b) ≡ true → (a ≡ true) × (b ≡ true)
and_parts true b h = (refl, h)
and_parts false b h = absurd (cc)

-- A list of counters, with their names and their values.
abbrev pub shown : Metrics → List Counter → List (Str × ℕ)
shown m cs = map (λ c. (name_of c, m.counts c)) cs

abbrev counters : List (Str × Counter) → List Counter
counters fs = map (λ f. f.1) fs

module _ (m : Metrics) (fits : (c : Counter) → m.counts c < u64_mod) where
  fields-name :
      (text : Str) (c : Counter) (rest : Str)
      → is_name (name_in [] text) (name_of c) ≡ true
      → fields (naming []) (text ++ (decimal (m.counts c) ++ rest))
        ≡ fields (numbering (name_of c) (m.counts c)) rest
  fields-name text c rest h =
      fields-name_in [] text (decimal (m.counts c) ++ rest) (name_of c)
        (is_name-some (name_in [] text) (name_of c) h)
      ∙ fields-decimal (m.counts c) (name_of c) rest (fits c)

  -- A number and the rest of its line.
  fields-tail :
      (name : Str) (n : ℕ) (fs : List (Str × Counter))
      → follow fs ≡ true
      → fields (numbering name n) (line fs m) ≡ (name, n) ∷ shown m (counters fs)
  unfolding fields
  fields-tail name n [] h = refl
  fields-tail name n ((text, c) ∷ fs) h =
      let (gap, named_rest) = and_parts _ _ h in
      let (named, rest) = and_parts _ _ named_rest in
      fields-gap name n text (decimal (m.counts c) ++ line fs m) gap
      ∙ ap (λ more. (name, n) ∷ more)
          (fields-name text c (line fs m) named ∙ fields-tail (name_of c) (m.counts c) fs rest)

  fields-line :
      (fs : List (Str × Counter))
      → are_named fs ≡ true
      → fields (naming []) (line fs m) ≡ shown m (counters fs)
  unfolding fields
  fields-line [] h = refl
  fields-line ((text, c) ∷ fs) h =
      let (named, rest) = and_parts _ _ h in
      fields-name text c (line fs m) named ∙ fields-tail (name_of c) (m.counts c) fs rest

-- The fields of the first `n` lines.
abbrev pub fields_of : ℕ → List Str → List (Str × ℕ)
fields_of zero lines = []
fields_of (suc n) [] = []
fields_of (suc n) (text ∷ lines) = fields (naming []) text ++ fields_of n lines

get-shown : (m : Metrics) (c : Counter) → get (name_of c) (shown m all_counters) ≡ some (m.counts c)
unfolding get str_beq
get-shown m lookup_count = refl
get-shown m getattr_count = refl
get-shown m setattr_count = refl
get-shown m read_count = refl
get-shown m write_count = refl
get-shown m create_count = refl
get-shown m mkdir_count = refl
get-shown m unlink_count = refl
get-shown m rmdir_count = refl
get-shown m rename_count = refl
get-shown m readdir_count = refl
get-shown m open_count = refl
get-shown m fsync_count = refl
get-shown m eio_count = refl
get-shown m enoent_count = refl
get-shown m eexist_count = refl
get-shown m enotempty_count = refl
get-shown m eisdir_count = refl
get-shown m enotdir_count = refl
get-shown m einval_count = refl
get-shown m replica_read_count = refl
get-shown m replica_fallback_count = refl

op_fields-are_named : are_named op_fields ≡ true
unfolding str_beq
op_fields-are_named = refl

error_fields-are_named : are_named error_fields ≡ true
unfolding str_beq
error_fields-are_named = refl

replica_fields-are_named : are_named replica_fields ≡ true
unfolding str_beq
replica_fields-are_named = refl

-- Where each counter is a u64, a reader of the fields name=number finds in the first three lines of
-- a round of the export, in this order, the counters of the operations, of the errors and of the
-- reads by the standby, each with its value and under its own name, none more than once and none
-- left out: looking up the name of any counter gives its value.
pub counter_lines-export :
    (fuse db : List ℕ) (m : Metrics)
    → ((c : Counter) → m.counts c < u64_mod)
    → (fields_of 3 (export fuse db m).0 ≡ map (λ c. (name_of c, m.counts c)) all_counters)
      × ((c : Counter) → get (name_of c) (fields_of 3 (export fuse db m).0) ≡ some (m.counts c))
unfolding export
counter_lines-export fuse db m fits =
    let read : fields_of 3 (export fuse db m).0 ≡ shown m all_counters =
      rw
        (
          fields-line m fits op_fields op_fields-are_named,
          fields-line m fits error_fields error_fields-are_named,
          fields-line m fits replica_fields replica_fields-are_named,
        )
        refl in
    (read, λ c. ap (get (name_of c)) read ∙ get-shown m c)
