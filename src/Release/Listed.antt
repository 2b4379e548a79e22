-- ===== src/Release/Listed.antt =====
-- What the release manifest lists (scripts/build-release-manifest.py).
use erpnext_whatsapp_connect.Base.{ℕ, String, true, Option, some, List, ◌≡◌, contains}
use erpnext_whatsapp_connect.Py.Value.{Value, Fields, find_key}
use erpnext_whatsapp_connect.Release.Manifest.{name_of, Disk, asset_of}

module _ (sha256 : List ℕ → String) (disk : Disk) where
  -- The entry is that of a file of the list that has the name.
  pub record IsEntry (files : List String) (name : String) (v : Value) : Type 0 where
    pub file : String
    pub content : List ℕ
    pub given : contains file files ≡ true
    pub named : name_of file ≡ name
    pub there : disk file ≡ some content
    pub entry : v ≡ asset_of sha256 disk content

  abbrev IsTrue : List String → Fields → Type 0
  IsTrue files assets = (k : String) (v : Value) → find_key assets k ≡ some v → IsEntry files k v
