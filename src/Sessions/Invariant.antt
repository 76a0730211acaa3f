-- ===== src/Sessions/Invariant.antt =====
-- What holds of the registry whatever is done to it, under the insertion, the removal and the change
-- of a session.
use logmon_mcp.Common.{
  ℕ, ◌≤◌, ◌≡◌, ◌∙◌, refl, ap, Bool, true, false, ◌&&◌, none, some, String, if◌then◌else◌, length,
  All, arith,
}
use logmon_mcp.Filter.{ParsedFilter}
use logmon_mcp.Sessions.{SessionState, Registry, touch, new_state}
use logmon_mcp.Sessions.Id.{
  SessionId, anonymous, named, same_id, same_id-eq, insert, remove, update, has_id, has_id-insert,
  has_id-remove, has_id-update, Unique, insert-Unique, remove-Unique, update-Unique, insert-All,
  remove-All, update-All,
}
use logmon_mcp.Sessions.Lifecycle.{refuse_an_anonymous_id}

-- A session is what its id says: an anonymous one is connected and has no name, a named one has its
-- name. At most 1000 events wait for it.
abbrev pub IsSession : SessionId → SessionState → Type 0
IsSession (anonymous a) s =
    (s.name ≡ none)
    × (s.connected ≡ true)
    × (s.max_queue_size ≡ 1_000)
    × (length s.notification_queue ≤ 1_000)
IsSession (named n) s =
    (s.name ≡ some n) × (s.max_queue_size ≡ 1_000) × (length s.notification_queue ≤ 1_000)

-- No anonymous session's id is the name of a named one, since what is kept under a session's label
-- could not tell them apart.
pub record IsRegistry (r : Registry) : Type 0 where
  pub unique : Unique r
  pub sessions : All (λ (i, s). IsSession i s) r
  pub apart : (x : String) → (has_id (anonymous x) r && has_id (named x) r) ≡ false

pub insert-IsRegistry :
    (r : Registry) (id : SessionId) (s : SessionState)
    → IsSession id s
    → ((x : String) → same_id id (anonymous x) ≡ true → has_id (named x) r ≡ false)
    → ((x : String) → same_id id (named x) ≡ true → has_id (anonymous x) r ≡ false)
    → IsRegistry r
    → IsRegistry (insert r id s)
insert-IsRegistry r (anonymous a) s h f g v = record {
  unique = insert-Unique r (anonymous a) s v.unique;
  sessions = insert-All IsSession r (anonymous a) s h v.sessions;
  apart = λ x. ground (
    arith,
    has_id-insert r (anonymous a) s (anonymous x),
    has_id-insert r (anonymous a) s (named x),
    v.apart x,
    f x,
  );
}
insert-IsRegistry r (named n) s h f g v = record {
  unique = insert-Unique r (named n) s v.unique;
  sessions = insert-All IsSession r (named n) s h v.sessions;
  apart = λ x. ground (
    arith,
    has_id-insert r (named n) s (anonymous x),
    has_id-insert r (named n) s (named x),
    v.apart x,
    g x,
  );
}

pub remove-IsRegistry : (r : Registry) (id : SessionId) → IsRegistry r → IsRegistry (remove r id)
remove-IsRegistry r id v = record {
  unique = remove-Unique r id v.unique;
  sessions = remove-All IsSession r id v.sessions;
  apart = λ x.
      ground (arith, has_id-remove r id (anonymous x), has_id-remove r id (named x), v.apart x);
}

-- A change of one session's state that keeps what its id says.
pub update-IsRegistry :
    (r : Registry) (id : SessionId) (f : SessionState → SessionState)
    → ((i : SessionId) (s : SessionState) → same_id i id ≡ true → IsSession i s → IsSession i (f s))
    → IsRegistry r
    → IsRegistry (update r id f)
update-IsRegistry r id f c v = record {
  unique = update-Unique r id f v.unique;
  sessions = update-All IsSession r id f c v.sessions;
  apart = λ x.
      ground (arith, has_id-update r id f (anonymous x), has_id-update r id f (named x), v.apart x);
}

pub anonymous_of : (n x : String) → named n ≡ named x → anonymous x ≡ anonymous n
anonymous_of n x e = cc

pub new_named-IsRegistry :
    (errors panics : ParsedFilter) (r : Registry) (now : ℕ) (name : String)
    → refuse_an_anonymous_id r name ≡ false
    → IsRegistry r
    → IsRegistry (insert r (named name) (new_state errors panics (some name) now))
unfolding new_state refuse_an_anonymous_id
new_named-IsRegistry errors panics r now name h v =
    insert-IsRegistry r (named name) _ (refl, refl, omega arith) (λ x e. cc)
      (λ x e. ap (λ i. has_id i r) (anonymous_of name x (same_id-eq (named name) (named x) e)) ∙ h)
      v

-- The claim of a name by a connection.
pub retake-IsRegistry :
    (r : Registry) (now : ℕ) (name : String) (connected : Bool)
    → IsRegistry r
    → IsRegistry (update r (named name) (λ t. touch now (record t { connected = connected })))
retake-IsRegistry r now name connected v = update-IsRegistry r (named name) _ kept v
  where
    kept :
        (i : SessionId) (s : SessionState)
        → same_id i (named name) ≡ true
        → IsSession i s
        → IsSession i (touch now (record s { connected = connected }))
    kept (anonymous a) s e h = cc
    kept (named n) s e h = h

-- Both branches of a test, and both cases of a lookup.
pub branches :
    {A : Type 0} (P : A → Type 0) (b : Bool) {x y : A}
    → (b ≡ true → P x)
    → (b ≡ false → P y)
    → P (if b then x else y)
branches P true f g = f refl
branches P false f g = g refl

abbrev pub Kept : {A : Type 0} → Registry × A → Type 0
Kept p = IsRegistry p.0
