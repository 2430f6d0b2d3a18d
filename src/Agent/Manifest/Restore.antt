-- ===== src/Agent/Manifest/Restore.antt =====
-- Manifest.record and Manifest.restore (protoprompt/agent/manifest.py) together.
use protoprompt.Prelude.{
  ◌≡◌, refl, Bool, false, none, some, [], ◌∷◌, Text, text_eq, text_eqb_iff, ◌==◌, arith, any_of,
}
use protoprompt.Agent.Manifest.{ManifestEntry, Manifest, record_entry, restore}

-- Whether the manifest has an entry of the id
abbrev pub lists : Text → Manifest → Bool
lists id = any_of (λ e. e.item_id == id)

-- Restoring an id that the manifest did not list, right after recording an entry of it, gives that
-- entry and the manifest as it was before; and restoring an id that it does not list changes
-- nothing.
pub restore-record_entry :
    (e : ManifestEntry) (m : Manifest)
    → lists e.item_id m ≡ false
    → (restore e.item_id (record_entry e m) ≡ (some e, m)) × (restore e.item_id m ≡ (none, m))
unfolding restore record_entry
restore-record_entry e [] h = (ground (arith, text_eqb_iff e.item_id e.item_id), refl)
restore-record_entry e (x ∷ m) h =
    let ih = restore-record_entry e m (ground arith) in
    let other : (x.item_id == e.item_id) ≡ false = ground arith in
    (rw (other, ih.0) refl, rw (other, ih.1) refl)
