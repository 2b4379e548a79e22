-- ===== src/Tests/Assets.antt =====
-- A release manifest of two files in two folders.
use erpnext_whatsapp_connect.Base.{ℕ, String, some, List, [], ◌∷◌}
use erpnext_whatsapp_connect.Py.Value.{Value, Fields, field, end}
use erpnext_whatsapp_connect.Release.Manifest.{Arguments, Disk, asset_of, manifest_of}

abbrev release_arguments : Arguments
release_arguments = record {
  tag = "v1.20.3";
  commit = "0123456789abcdef0123456789abcdef01234567";
  image =
      "ghcr.io/owner/gateway@sha256:0123456789abcdef0123456789abcdef0123456789abcdef0123456789abcdef";
  files = "dist/gateway.tar" ∷ "dist/app.tar" ∷ [];
}

abbrev command_line : List String
command_line =
    "build" ∷ release_arguments.tag ∷ release_arguments.commit ∷ release_arguments.image
    ∷ release_arguments.files

abbrev disk : Disk
disk name = some (1 ∷ 2 ∷ [])

abbrev sum : List ℕ → String
sum content = "sum"

abbrev manifest : Fields
manifest = manifest_of release_arguments (
    field "app.tar" (asset_of sum disk (1 ∷ 2 ∷ []))
      (field "gateway.tar" (asset_of sum disk (1 ∷ 2 ∷ [])) end))
