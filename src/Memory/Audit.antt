-- ===== src/Memory/Audit.antt =====
-- `cloneAudit`: the metadata is copied key by key into a fresh map. Go walks a map in any order;
-- here from the last entry.
use secure_ledger.Prelude.{String, none, some, [], ◌∷◌, string_Eq}
use secure_ledger.Prelude.Map.{Map, insert}
use secure_ledger.Domain.{AuditRecord, Value}

unfoldable pub copy_metadata : Map String Value → Map String Value
copy_metadata [] = []
copy_metadata ((k, v) ∷ m) = insert k v (copy_metadata m)

unfoldable pub clone_audit : AuditRecord → AuditRecord
unfolding copy_metadata
clone_audit a = record a {
  metadata = elim a.metadata [ none ↦ none | some m ↦ some (copy_metadata m) ];
}
