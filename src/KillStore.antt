-- ===== src/KillStore.antt =====
-- src/leshper/kill_store.cpp: named registers of killed text, in a vector that is searched.
pub mod Lookup
use lesh.Base.{
  ℕ, Bool, true, false, Option, none, some, List, [], ◌∷◌, ◌++◌, Bytes, same, if◌then◌else◌,
}

pub record KillEntry : Type 0 where
  pub key : Bytes
  pub text : Bytes
  pub flags : ℕ

unfoldable pub put : List KillEntry → Bytes → Bytes → ℕ → List KillEntry
put [] key text flags = record { key = key; text = text; flags = flags } ∷ []
put (one ∷ entries) key text flags =
    let further = one ∷ put entries key text flags in
    if same one.key key then record one { text = text; flags = flags } ∷ entries else further

-- The entry that the pointer is to.
unfoldable pub get : List KillEntry → Bytes → Option KillEntry
get [] key = none
get (one ∷ entries) key =
    let further = get entries key in if same one.key key then some one else further
