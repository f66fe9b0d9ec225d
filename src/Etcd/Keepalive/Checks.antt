-- ===== src/Etcd/Keepalive/Checks.antt =====
-- Is a key written without a check of what etcd has there (component/etcdcli/etcd_keepalive.cpp)?
use atsf4g_co.Base.{◌≡◌, Bool, true, false, not, ◌&&◌, ◌||◌, Option, none, some, List, [], ◌∷◌}
use atsf4g_co.Etcd.Keepalive.{Text, Request, get_data, set_data, value_of, Keepalive, Owner}
use atsf4g_co.Etcd.Keepalive.Life.{
  Event, closes, checks_text, checks, changes, activates, sets, replies, step,
}

-- Does the event leave the key open and its checker as it is?
abbrev pub keeps_checker : Event → Bool
keeps_checker (closes b) = false
keeps_checker (checks_text t) = false
keeps_checker (checks f) = false
keeps_checker changes = true
keeps_checker activates = true
keeps_checker (sets t) = true
keeps_checker (replies r) = true

abbrev pub all_keep_checker : List (Owner × Event) → Bool
all_keep_checker [] = true
all_keep_checker ((o, e) ∷ es) = keeps_checker e && all_keep_checker es

-- Is the event a successful reply with a value, the empty text where there is no key, that the
-- checker accepts?
abbrev pub shows : (Text → Bool) → Owner → Event → Bool
shows f o (replies r) = r.succeeds && elim (value_of o r.document) [ none ↦ false | some v ↦ f v ]
shows f o e = false

abbrev pub asks_value : Option Request → Bool
asks_value (some get_data) = true
asks_value r = false

abbrev pub sets_value : Option Request → Bool
sets_value (some (set_data v)) = true
sets_value r = false

-- Was such a reply to a request for the value among the events?
abbrev pub was_shown : (Text → Bool) → Keepalive → List (Owner × Event) → Bool
was_shown f k [] = false
was_shown f k ((o, e) ∷ es) =
    let later = was_shown f (step o k e) es in (asks_value k.rpc_opr && shows f o e) || later

-- The key has the checker, and its check is marked as made and passed only if that was seen.
abbrev Shown : (Text → Bool) → Bool → Keepalive → Type 0
Shown f seen k = (k.fn ≡ some f) × ((not (k.is_check_run && k.is_check_passed) || seen) ≡ true)
