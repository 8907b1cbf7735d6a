-- ===== src/Db/Atomic/Single.antt =====
-- The operations of src/db.rs that change the tables by a single statement, and statements that fail.
use pgfs.Prelude.{
  length, filterb, Bool, true, false, ◌≡◌, refl, inl, inr, List, [], ◌∷◌, Str, some, codes,
  if◌then◌else◌, ltb, str_key,
}
use pgfs.Path.{join}
use pgfs.Db.Rows.{Tables, has_children, insert_entry, delete_entry, is_entry}
use pgfs.Db.Exec.{Db, Exec, Fault, fine, failed, lost, pure, gets, query, update, execute, ◌>>=◌}
use pgfs.Db.Names.{insert, create, mkdir, rmdir, delete_counted}
use pgfs.Db.Atomic.Statements.{Honest-query, Honest-gets-now}
use pgfs.Db.Atomic.Whole.{AllOrNothing, Atomic, Reads-query, Atomic-bind, Atomic-pure}

-- A statement, and what is made of its answer.
module _ {A B : Type 0} (f : Tables → A × Tables) (g : A → B) where
  abbrev statement : Exec B
  statement = execute (λ t. some (f t)) >>= λ a. pure (g a)

  statement-AllOrNothing : (fs : List Fault) (s : Db) → s.faults ≡ fs → AllOrNothing statement s
  unfolding execute
  statement-AllOrNothing [] s e = inr (rw (e) refl)
  statement-AllOrNothing (fine ∷ fs) s e = inr (rw (e) refl)
  statement-AllOrNothing (failed ∷ fs) s e = inl (rw (e) (λ a h. cc, refl))
  statement-AllOrNothing (lost ∷ fs) s e = inr (rw (e) refl)

  Atomic-statement : Atomic statement
  Atomic-statement = record { at = λ s. statement-AllOrNothing s.faults s refl }

update-AllOrNothing :
    (f : Tables → Tables) (fs : List Fault) (s : Db) → s.faults ≡ fs → AllOrNothing (update f) s
unfolding update execute
update-AllOrNothing f [] s e = inr (rw (e) refl)
update-AllOrNothing f (fine ∷ fs) s e = inr (rw (e) refl)
update-AllOrNothing f (failed ∷ fs) s e = inl (rw (e) (λ a h. cc, refl))
update-AllOrNothing f (lost ∷ fs) s e = inr (rw (e) refl)

Atomic-update : (f : Tables → Tables) → Atomic (update f)
Atomic-update f = record { at = λ s. update-AllOrNothing f s.faults s refl }

insert-AllOrNothing : (kind p n : Str) (s : Db) → AllOrNothing (insert kind p n) s
unfolding insert
insert-AllOrNothing kind p n s =
    (Atomic-bind (gets (λ s. s.now)) _ (record { at = λ s. refl }) Honest-gets-now
        (λ now. Atomic-update (λ t. record t { entries = insert_entry p n kind now t.entries }))).at
      s

pub create-AllOrNothing : (p n : Str) (s : Db) → AllOrNothing (create p n) s
unfolding create
create-AllOrNothing = insert-AllOrNothing (codes "file")

pub mkdir-AllOrNothing : (p n : Str) (s : Db) → AllOrNothing (mkdir p n) s
unfolding mkdir
mkdir-AllOrNothing = insert-AllOrNothing (codes "dir")

Atomic-if :
    {A : Type 0} (b : Bool) (m n : Exec A) → Atomic m → Atomic n → Atomic (if b then m else n)
Atomic-if true m n hm hn = hm
Atomic-if false m n hm hn = hn

pub rmdir-AllOrNothing : (p n : Str) (s : Db) → AllOrNothing (rmdir p n) s
unfolding rmdir delete_counted
rmdir-AllOrNothing p n s =
    (Atomic-bind (query (λ t. has_children (join p n) t.entries)) _ (Reads-query _) (Honest-query _)
        (λ occupied. Atomic-if occupied _ _ (Atomic-pure false) (
          Atomic-statement
            (λ t. (
              length (filterb (is_entry p n) t.entries),
              record t { entries = delete_entry p n t.entries },
            ))
            (λ deleted. ltb 0 deleted)))).at
      s
