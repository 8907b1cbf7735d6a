-- ===== src/Db/Volume/Faults.antt =====
-- Sequences of operations of src/db.rs whose statements may fail, against the map that the database
-- stands for.
use pgfs.Prelude.{◌≡◌, ◌≢◌, ◌∙◌, refl, ap, sym, false, ◌⊎◌, inl, inr, List, [], ◌∷◌}
use pgfs.Db.Rows.{Result, ok, err, panic}
use pgfs.Db.Exec.{Db, pure, continue}
use pgfs.Db.Operations.{
  Operation, Answer, run, is_two_step, run-AllOrNothing, writes, truncates, overwrites, flushes,
  creates, mkdirs, unlinks, rmdirs, renames,
}
use pgfs.Db.Types.Session.{run_all}
use pgfs.Db.Content.Whole.{calm}
use pgfs.Db.Volume
use pgfs.Db.Volume.{Volume, Action, act, after, answered, IsAllowed}
use pgfs.Db.Volume.Shows.{Represents, tables-Represents}
use pgfs.Db.Volume.Session.{act-Represents}

abbrev pub action_of : Operation → Action
action_of (writes p n offset buf) = Volume.writes p n offset buf
action_of (truncates p n size) = Volume.truncates p n size
action_of (overwrites p n buf) = Volume.overwrites p n buf
action_of (flushes p n blocks size) = Volume.flushes p n blocks size
action_of (creates p n) = Volume.creates p n
action_of (mkdirs p n) = Volume.mkdirs p n
action_of (unlinks p n) = Volume.unlinks p n
action_of (rmdirs p n) = Volume.rmdirs p n
action_of (renames p n q m) = Volume.renames p n q m

-- Each operation is neither unlink nor write, and allowed whichever of the ones before it took effect.
abbrev pub AreSafe : List Operation → Volume → Type 0
AreSafe [] v = Unit {0}
AreSafe (op ∷ ops) v =
    (is_two_step op ≡ false)
    × IsAllowed (action_of op) v
    × AreSafe ops v
    × AreSafe ops (after (action_of op) v)

abbrev pub made : List Operation → Volume → Volume
made [] v = v
made (op ∷ ops) v = made ops (after (action_of op) v)

-- The operations that took effect, in their order: all that succeeded, and some that failed.
pub data Kept : List Operation → Db → List Operation → Type 0 where
  ended : {s : Db} → Kept [] s []
  kept :
      {op : Operation} {ops ks : List Operation} {s : Db}
      → Kept ops (run op s).1 ks
      → Kept (op ∷ ops) s (op ∷ ks)
  undone :
      {op : Operation} {ops ks : List Operation} {s : Db}
      → ((a : Answer op) → (run op s).0 ≢ ok a)
      → Kept ops (run op s).1 ks
      → Kept (op ∷ ops) s ks

continue_state :
    {A B : Type 0} (r : Result A) (g : A → B) (s : Db) → (continue r (λ a. pure (g a)) s).1 ≡ s
continue_state (ok a) g s = refl
continue_state (err e) g s = refl
continue_state panic g s = refl

-- An action leaves what its operation leaves.
act_state : (op : Operation) (s : Db) → (act (action_of op) s).1 ≡ (run op s).1
act_state (writes p n offset buf) s = continue_state (run (writes p n offset buf) s).0 _ _
act_state (truncates p n size) s = continue_state (run (truncates p n size) s).0 _ _
act_state (overwrites p n buf) s = continue_state (run (overwrites p n buf) s).0 _ _
act_state (flushes p n blocks size) s = continue_state (run (flushes p n blocks size) s).0 _ _
act_state (creates p n) s = continue_state (run (creates p n) s).0 _ _
act_state (mkdirs p n) s = continue_state (run (mkdirs p n) s).0 _ _
act_state (unlinks p n) s = continue_state (run (unlinks p n) s).0 _ _
act_state (rmdirs p n) s = continue_state (run (rmdirs p n) s).0 _ _
act_state (renames p n q m) s = continue_state (run (renames p n q m) s).0 _ _

-- An operation whose statements may fail is undone, and then it did not succeed, or takes effect.
run-Represents :
    (op : Operation) (v : Volume) (s : Db)
    → Represents v s
    → is_two_step op ≡ false
    → IsAllowed (action_of op) v
    → (((a : Answer op) → (run op s).0 ≢ ok a) × Represents v (run op s).1)
      ⊎ Represents (after (action_of op) v) (run op s).1
run-Represents op v s r one_step allowed = elim (run-AllOrNothing op s one_step) [
  | inl (fails, same) ↦ inl (fails, tables-Represents v s (run op s).1 same r)
  | inr same ↦
      let (s', acts, r') = act-Represents (action_of op) v s r allowed in
      let tables : (run op s).1.tables ≡ s'.tables =
        same ∙ ap (λ d. d.tables) (sym (act_state op (calm s))) ∙ ap (λ x. x.1.tables) acts in
      inr (tables-Represents (after (action_of op) v) s' (run op s).1 tables r')
]

-- Let the tables hold a map. After any sequence of operations other than unlink and write,
-- whichever of their statements fail and whichever replies are lost, the tables hold the map that
-- some of the operations make in their order, and these include all that succeeded. Each operation
-- has to be allowed for the map that it may meet.
pub run_all-Represents :
    (ops : List Operation) (v : Volume) (s : Db)
    → Represents v s
    → AreSafe ops v
    → (ks : List Operation) × Kept ops s ks × Represents (made ks v) (run_all ops s)
run_all-Represents [] v s r safe = ([], ended, r)
run_all-Represents (op ∷ ops) v s r (one_step, allowed, safe, safe') =
    elim (run-Represents op v s r one_step allowed) [
      | inl (fails, r') ↦
          let (ks, k, final) = run_all-Represents ops v (run op s).1 r' safe in
          (ks, undone fails k, final)
      | inr r' ↦
          let (ks, k, final) =
            run_all-Represents ops (after (action_of op) v) (run op s).1 r' safe' in
          (op ∷ ks, kept k, final)
    ]
