-- ===== src/Chain/Swapped.antt =====
-- A swap of hotkeys from its detection to the commits of the new hotkey (src/chain_guard/,
-- src/chain_reader/db.py).
use albedo.Prelude.{
  Bool-cases, any-append, any_last, count, In, ℕ, String, ◌≡◌, refl, sym, ap, ◌∙◌, inl, inr, true,
  Option, none, some, List, [], ◌∷◌, str_eq, str_eq_iff,
}
use mathlib.Core.Path.{subst}
use albedo.Chain.{
  ChainDb, Commit, Source, SwapEvent, find_swaps, insert_used, is_used, record_swaps, swap_source,
  confirm_swaps, refresh_registration_blocks, confirm,
}
use albedo.Chain.Swaps.{IsSwap, Prior, Snapshot, find_swaps_iff}
use albedo.Chain.Guard.{insert_new_commits-guards, is_opened, opened}
use albedo.Chain.Insert.{Ids, read_block}

insert_used-keeps :
    (h k : String) (block : ℕ) (source : Source) (db : ChainDb)
    → is_used db h ≡ true
    → is_used (insert_used k block source db).0 h ≡ true
unfolding insert_used
insert_used-keeps h k block source db used = elim (Bool-cases (is_used db k)) [
  | inl e ↦ rw e used
  | inr e ↦ rw e (
      unfold is_used in
      any-append (λ u. str_eq u.hotkey h) db.used_hotkeys
        (record { hotkey = k; block_number = block; source = source } ∷ []) used)
]

insert_used-true :
    (h : String) (block : ℕ) (source : Source) (db : ChainDb)
    → is_used (insert_used h block source db).0 h ≡ true
unfolding insert_used
insert_used-true h block source db = elim (Bool-cases (is_used db h)) [
  | inl e ↦ rw e e
  | inr e ↦ rw e (
      unfold is_used in
      any_last (λ u. str_eq u.hotkey h) db.used_hotkeys
        (record { hotkey = h; block_number = block; source = source }) ((str_eq_iff h h).1 refl))
]

insert_used-rest :
    (h : String) (block : ℕ) (source : Source) (db : ChainDb)
    → (insert_used h block source db).0.submissions ≡ db.submissions
unfolding insert_used
insert_used-rest h block source db = elim (Bool-cases (is_used db h)) [
  | inl e ↦ rw e refl
  | inr e ↦ rw e refl
]

record_swaps-keeps :
    (h : String) (block : ℕ) (swaps : List SwapEvent) (db : ChainDb)
    → is_used db h ≡ true
    → is_used (record_swaps block swaps db) h ≡ true
unfolding record_swaps
record_swaps-keeps h block [] db used = used
record_swaps-keeps h block (s ∷ swaps) db used =
    record_swaps-keeps h block swaps (insert_used s.new_hotkey block swap_source db).0
      (insert_used-keeps h s.new_hotkey block swap_source db used)

record_swaps-true :
    (s : SwapEvent) (block : ℕ) (swaps : List SwapEvent) (db : ChainDb)
    → In s swaps
    → is_used (record_swaps block swaps db) s.new_hotkey ≡ true
unfolding record_swaps
record_swaps-true s block [] db m = absurd m
record_swaps-true s block (z ∷ swaps) db (inl same) = rw same (
    record_swaps-keeps z.new_hotkey block swaps (insert_used z.new_hotkey block swap_source db).0
      (insert_used-true z.new_hotkey block swap_source db))
record_swaps-true s block (z ∷ swaps) db (inr m) =
    record_swaps-true s block swaps (insert_used z.new_hotkey block swap_source db).0 m

record_swaps-rest :
    (block : ℕ) (swaps : List SwapEvent) (db : ChainDb)
    → (record_swaps block swaps db).submissions ≡ db.submissions
unfolding record_swaps
record_swaps-rest block [] db = refl
record_swaps-rest block (s ∷ swaps) db =
    record_swaps-rest block swaps (insert_used s.new_hotkey block swap_source db).0
    ∙ insert_used-rest s.new_hotkey block swap_source db

In-confirm :
    (s z : SwapEvent) (swaps : List SwapEvent) (owner : Option String)
    → In s swaps
    → In s (confirm z swaps owner)
unfolding confirm
In-confirm s z swaps none m = inr m
In-confirm s z swaps (some _) m = m

In-confirm_swaps :
    (hotkey_owner : String → Option String) (s : SwapEvent) (swaps : List SwapEvent)
    → In s swaps
    → hotkey_owner s.old_hotkey ≡ none
    → In s (confirm_swaps hotkey_owner swaps)
unfolding confirm_swaps
In-confirm_swaps hotkey_owner s [] m gone = absurd m
In-confirm_swaps hotkey_owner s (z ∷ swaps) (inl same) gone =
    let rest = confirm_swaps hotkey_owner swaps in
    let free : hotkey_owner z.old_hotkey ≡ none =
      ap (λ k. hotkey_owner k.old_hotkey) (sym same) ∙ gone in
    subst (λ o. In s (confirm z rest o)) (sym free) (unfold confirm in inl same)
In-confirm_swaps hotkey_owner s (z ∷ swaps) (inr m) gone =
    In-confirm s z (confirm_swaps hotkey_owner swaps) (hotkey_owner z.old_hotkey)
      (In-confirm_swaps hotkey_owner s swaps m gone)

-- Where the snapshot shows a uid under another hotkey with the block of registration that it had, and
-- the old hotkey has no owner any more, reading the block opens no submission of the new hotkey,
-- whatever commits come with it.
pub read_block-guards :
    (hotkey_owner : String → Option String) (prior : Prior) (snapshot : Snapshot) (cur : ℕ)
    (commits : List (Commit × Ids)) (db : ChainDb) (s : SwapEvent)
    → IsSwap prior snapshot s
    → hotkey_owner s.old_hotkey ≡ none
    → opened s.new_hotkey (read_block hotkey_owner prior snapshot cur commits db).0
      ≡ opened s.new_hotkey db
unfolding read_block
read_block-guards hotkey_owner prior snapshot cur commits db s swap gone =
    let swaps = confirm_swaps hotkey_owner (find_swaps prior snapshot) in
    let found = (find_swaps_iff prior snapshot s).1 swap in
    let confirmed = In-confirm_swaps hotkey_owner s (find_swaps prior snapshot) found gone in
    let marked = record_swaps cur swaps db in
    let refreshed = refresh_registration_blocks snapshot marked in
    insert_new_commits-guards commits s.new_hotkey refreshed
      (unfold refresh_registration_blocks is_used in record_swaps-true s cur swaps db confirmed)
    ∙ ap (count (is_opened s.new_hotkey))
        (unfold refresh_registration_blocks in record_swaps-rest cur swaps db)
