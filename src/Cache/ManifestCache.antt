-- ===== src/Cache/ManifestCache.antt =====
-- internal/cache/cache.go, lines 158 to 215: `ManifestCache`. Each method is one step under the
-- mutex; `now` is the clock's answer in that step. Times and lifetimes are numbers of nanoseconds
-- that are not negative. The opaque event is any type `E`.
pub mod Views
use nostrhost_nsite.Prelude.{
  ℕ, ◌+◌, Bool, true, false, List, [], Option, none, some, if◌then◌else◌, ltb, not, Bytes,
}
use nostrhost_nsite.Assoc.{lookup, insert, delete}

pub record ManifestEntry (E : Type 0) : Type 0 where
  pub event : E
  pub expires : ℕ

pub record ManifestCache (E : Type 0) : Type 0 where
  pub ttl : ℕ
  pub neg_ttl : ℕ
  pub items : List (Bytes × ManifestEntry E)
  pub negated : List (Bytes × ℕ)

unfoldable pub new_manifest_cache : {E : Type 0} → ℕ → ℕ → ManifestCache E
new_manifest_cache ttl neg_ttl = record { ttl = ttl; neg_ttl = neg_ttl; items = []; negated = [] }

abbrev fresh_until : ℕ → Option ℕ → Bool
fresh_until now none = false
fresh_until now (some until) = not (ltb until now)

module _ {E : Type 0} where
  abbrev get_entry :
      ℕ → Bytes → Option (ManifestEntry E) → ManifestCache E → ManifestCache E × Option E
  get_entry now key none m = (record m { items = delete key m.items }, none)
  get_entry now key (some e) m =
      if ltb e.expires now
      then (record m { items = delete key m.items }, none)
      else (m, some e.event)

  unfoldable pub get : ℕ → Bytes → ManifestCache E → ManifestCache E × Option E
  get now key m = get_entry now key (lookup key m.items) m

  unfoldable pub negative : ℕ → Bytes → ManifestCache E → Bool
  negative now key m = fresh_until now (lookup key m.negated)

  unfoldable pub put : ℕ → Bytes → E → ManifestCache E → ManifestCache E
  put now key event m = record m {
    items = insert key (record { event = event; expires = now + m.ttl }) m.items;
    negated = delete key m.negated;
  }

  unfoldable pub put_negative : ℕ → Bytes → ManifestCache E → ManifestCache E
  put_negative now key m = record m {
    negated = insert key (now + m.neg_ttl) m.negated;
    items = delete key m.items;
  }
