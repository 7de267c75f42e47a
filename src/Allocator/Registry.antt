-- ===== src/Allocator/Registry.antt =====
-- The tables by address that allocator/page.c and allocator/lease.c keep: what an insertion and a
-- deletion of map/linear.c do to the addresses that are tracked.
pub mod Blocks
pub mod Every
use attica.Base.{
  ℕ, ◌%◌, ◌*◌, ◌≡◌, ◌≢◌, ◌<◌, ◌↔◌, ◌⊎◌, sym, inl, inr, refl, Bool, true, false, arith, Ptr, null,
  Bool-cases, [], ◌==◌, if◌then◌else◌, ◌∙◌, word,
}
use attica.Map.Linear.{
  HashMap, HashMapState, success, is_success, key_not_found, search, insert, delete, resize,
  resize_internal,
}
use attica.Map.Linear.Hash.{address_type, address_same, key_types-IsKeyType}
use attica.Map.Linear.Search.{IsKeyType, IsValid}
use attica.Map.Linear.Ring.{IsStraight}
use attica.Map.Linear.Resize.{resize_internal-Keeps}
use attica.Map.Linear.Filled.{IsCrowded}
use attica.Map.Linear.Rehash.{is_success_iff}
use attica.Map.Linear.Adding.{doubled, IsReady, insert-Adds}
use mathlib.Core.Bool.{false≢true}
use attica.Map.Linear.Delete.Deletes.{IsClear, delete-Deletes}

pub address-IsKeyType : IsKeyType address_type
address-IsKeyType = (key_types-IsKeyType (λ p. p) (λ p. [])).0

-- What the table holds for an address.
abbrev pub tracked : HashMap → Ptr → Ptr
tracked table q = search address_type q table

-- A new key finds no place: the table is heavy and cannot be doubled, or no probe meets an empty slot.
abbrev pub HasNoRoom : (granted : Bool) → HashMap → Ptr → Type 0
HasNoRoom granted table key =
    ((doubled address_type granted table).0 ≢ success)
    ⊎ IsCrowded address_type (doubled address_type granted table).1 key

-- An insertion: after a success `key`, which was not tracked, has `value`; nothing else changes.
pub record Registers (NoRoom : Type 0) (table : HashMap) (key value : Ptr)
    (r : HashMapState × HashMap) : Type 0 where
  pub valid : IsValid address_type r.1
  pub absent : r.0 ≡ success → tracked table key ≡ null
  pub added : r.0 ≡ success → tracked r.1 key ≡ value
  pub others : r.0 ≡ success → (q : Ptr) → q ≢ null → q ≢ key → tracked r.1 q ≡ tracked table q
  pub kept : r.0 ≢ success → (q : Ptr) → q ≢ null → tracked r.1 q ≡ tracked table q
  pub refuses : value ≢ null → tracked table key ≡ null → (r.0 ≢ success) ↔ NoRoom

pub insert-Registers :
    (granted : Bool) (key value : Ptr) (table : HashMap)
    → IsValid address_type table
    → key ≢ null
    → Registers
        (HasNoRoom granted table key)
        table
        key
        value
        (insert address_type granted key value table)
unfolding address_type address_same
insert-Registers granted key value table valid given =
    let adds = insert-Adds address_type address-IsKeyType granted key value table valid in
    let here : (key == key) ≡ true = ground arith in
    record {
      valid = adds.valid;
      absent = adds.absent;
      added = λ h. adds.added h key given ∙ rw here;
      others =
          λ h q some away. let e : (key == q) ≡ false = ground arith in adds.added h q some ∙ rw e;
      kept = adds.kept;
      refuses = λ some none. (
        λ failed. elim (adds.answers) [
          | inl done ↦ absurd (failed done)
          | inr (inl bad) ↦ elim (adds.refused.0 bad) [
            | inl k ↦ absurd (given k)
            | inr (inl v) ↦ absurd (some v)
            | inr (inr stuck) ↦ inl stuck
          ]
          | inr (inr (inl there)) ↦ absurd ((adds.exists.0 there).1 none)
          | inr (inr (inr stuck)) ↦ inr ((adds.crowded.0 stuck).1)
        ],
        λ why done. elim why [
          | inl stuck ↦ absurd (cc (done, adds.refused.1 (inr (inr stuck))))
          | inr stuck ↦ elim (Bool-cases (is_success (doubled address_type granted table).0)) [
            | inl good ↦
                let ready : IsReady address_type granted table key value =
                  (given, some, (is_success_iff _).0 good) in
                absurd (cc (done, adds.crowded.1 (ready, stuck)))
            | inr bad ↦
                let failed = λ (h : (doubled address_type granted table).0 ≡ success).
                  false≢true (sym bad ∙ (is_success_iff _).1 h) in
                absurd (cc (done, adds.refused.1 (inr (inr failed))))
          ]
        ],
      );
    }

-- A deletion: of a tracked address it succeeds and takes out that one; of another it changes nothing.
pub record Unregisters (table : HashMap) (key : Ptr) (r : HashMapState × HashMap) : Type 0 where
  pub clear : IsClear address_type address-IsKeyType r.1
  pub succeeds : (r.0 ≡ success) ↔ (tracked table key ≢ null)
  pub missing : r.0 ≢ success → r ≡ (key_not_found, table)
  pub removed : r.0 ≡ success → tracked r.1 key ≡ null
  pub others : r.0 ≡ success → (q : Ptr) → q ≢ null → q ≢ key → tracked r.1 q ≡ tracked table q

pub delete-Unregisters :
    (key : Ptr) (table : HashMap)
    → IsClear address_type address-IsKeyType table
    → key ≢ null
    → IsStraight address_type table.size key
    → Unregisters table key (delete address_type key table)
unfolding address_type address_same
delete-Unregisters key table clear given line =
    let deletes = delete-Deletes address_type address-IsKeyType table key clear given line in
    let here : (key == key) ≡ true = ground arith in
    record {
      clear = deletes.clear;
      succeeds = deletes.succeeds;
      missing = deletes.missing;
      removed = λ h. deletes.removed h key given ∙ rw here;
      others = λ h q some away.
          let e : (key == q) ≡ false = ground arith in deletes.removed h q some ∙ rw e;
    }

-- A resize changes nothing that is tracked.
pub resize-tracked :
    (granted : Bool) (new_size : ℕ) (table : HashMap)
    → IsValid address_type table
    → let r = resize address_type granted new_size table in
      IsValid address_type r.1 × ((q : Ptr) → q ≢ null → tracked r.1 q ≡ tracked table q)
unfolding resize
resize-tracked granted new_size table valid =
    let keeps = resize_internal-Keeps address_type address-IsKeyType granted new_size table valid in
    let s0 : (table.size == 0) ≡ false = ground (arith, valid.1) in rw s0 (keeps.valid, keeps.found)
