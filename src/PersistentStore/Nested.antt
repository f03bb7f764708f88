-- ===== src/PersistentStore/Nested.antt =====
-- A settings file with an object at `sync` that may hold the token, as an instance of `RawStore`.
use facenox.Base.{ℕ, ◌≡◌, refl, Bool, true, false, ◌&&◌, ◌||◌, if◌then◌else◌}
use facenox.Base.Text.{Text, codes}
use facenox.Base.Keys.{◌===◌, list_eq, nat_eq, ===_refl, same_list}
use facenox.PersistentStore.{Value, missing, text, other, RawStore, device_token_key}

abbrev pub sync_key : Text
sync_key = codes "sync"

-- A value that is no text: a number, or an object without a token, with a text for it or with another
-- value.
pub data Json : Type 0 where
  leaf : ℕ → Json
  bare : Json
  held : Text → Json
  nested : Json → Json

abbrev pub inner : Value Json → Value Json
inner (other (held token)) = text token
inner (other (nested j)) = other j
inner v = missing

abbrev pub outer : Value Json → Value Json
outer missing = other bare
outer (text token) = other (held token)
outer (other j) = other (nested j)

inner-outer : (v : Value Json) → inner (outer v) ≡ v
inner-outer missing = refl
inner-outer (text token) = refl
inner-outer (other j) = refl

pub record Settings : Type 0 where
  pub sync_value : Value Json
  pub rest : Text → Value Json

-- By whether the key is `sync`, and whether it is the token's.
abbrev pub read_by : Bool → Bool → Text → Settings → Value Json
read_by true is_token k s = s.sync_value
read_by false true k s = inner s.sync_value
read_by false false k s = s.rest k

abbrev pub write_by : Bool → Bool → Text → Value Json → Settings → Settings
write_by true is_token k v s = record s { sync_value = v }
write_by false true k v s = record s { sync_value = outer v }
write_by false false k v s = record s { rest = λ j. if k === j then v else s.rest j }

abbrev pub read_key : Text → Settings → Value Json
read_key k = read_by (k === sync_key) (k === device_token_key) k

abbrev pub write_key : Text → Value Json → Settings → Settings
write_key k = write_by (k === sync_key) (k === device_token_key) k

abbrev pub empty_settings : Settings
empty_settings = record { sync_value = missing; rest = λ k. missing }

pub read_write_by :
    (a b : Bool) (k : Text) (v : Value Json) (s : Settings) → read_by a b k (write_by a b k v s) ≡ v
read_write_by true b k v s = refl
read_write_by false true k v s = inner-outer v
read_write_by false false k v s = rw (===_refl k) refl

apart_by :
    (a b c d : Bool) (j k : Text) (v : Value Json) (s : Settings)
    → (k === j) ≡ false
    → ((a || b) && (c || d)) ≡ false
    → read_by a b j (write_by c d k v s) ≡ read_by a b j s
apart_by true b true d j k v s h n = absurd cc
apart_by true b false true j k v s h n = absurd cc
apart_by true b false false j k v s h n = refl
apart_by false true true d j k v s h n = absurd cc
apart_by false true false true j k v s h n = absurd cc
apart_by false true false false j k v s h n = refl
apart_by false false true d j k v s h n = refl
apart_by false false false true j k v s h n = refl
apart_by false false false false j k v s h n = rw h refl

-- Two keys of which neither is the other nor leads to it.
abbrev pub IsApart : Text → Text → Type 0
IsApart j k =
    ((k === j) ≡ false)
    × (((j === sync_key || j === device_token_key) && (k === sync_key || k === device_token_key))
        ≡ false)

pub nested_apart :
    (j k : Text) (v : Value Json) (s : Settings)
    → IsApart j k
    → read_key j (write_key k v s) ≡ read_key j s
nested_apart j k v s (differs, unrelated) =
    apart_by (j === sync_key) (j === device_token_key) (k === sync_key) (k === device_token_key) j k
      v s differs unrelated

pub nested_inside :
    (k j : Text) (s t : Settings)
    → (k ≡ device_token_key) × (j ≡ sync_key)
    → read_key k (write_key j (read_key j s) t) ≡ read_key k s
unfolding same_list
nested_inside k j s t (token, at_sync) = rw (token, at_sync) refl

pub nested_removed :
    (k j : Text) (s : Settings)
    → (k ≡ device_token_key) × (j ≡ sync_key)
    → read_key k (write_key j missing s) ≡ missing
unfolding same_list
nested_removed k j s (token, at_sync) = rw (token, at_sync) refl

pub read_empty : (a b : Bool) (k : Text) → read_by a b k empty_settings ≡ missing
read_empty true b k = refl
read_empty false true k = refl
read_empty false false k = refl

abbrev pub nested_store : RawStore Json
nested_store = record {
  State = Settings;
  Apart = IsApart;
  Inside = λ k j. (k ≡ device_token_key) × (j ≡ sync_key);
  defaults = λ k. missing;
  read = read_key;
  write = write_key;
  remove = λ k. write_key k missing;
  reset = λ s. empty_settings;
  read_write = λ k v s there. read_write_by (k === sync_key) (k === device_token_key) k v s;
  read_write_apart = nested_apart;
  read_write_inside = λ k j s t inside there. nested_inside k j s t inside;
  read_remove = λ k s. read_write_by (k === sync_key) (k === device_token_key) k missing s;
  read_remove_apart = λ j k s. nested_apart j k missing s;
  read_remove_inside = nested_removed;
  read_reset = λ k s. read_empty (k === sync_key) (k === device_token_key) k;
}
