-- ===== src/Bookmarks.antt =====
-- crates/core/src/store/bookmarks.rs: bookmarks, the cursors among them, and the read-and-advance
-- protocol of a cursor. `bookmarks` is locked before `recently_evicted` and held while it changes,
-- so each method is one step on both; a `CursorCommit` commits in a later step. The time of
-- creation is an argument.
mod Tests
pub mod Name
pub mod Map
pub mod Store
pub mod Laws
pub mod RenameRounds
pub mod Renames
pub mod Cursors
pub mod Resolver
pub mod Resolution
use Prim.Native.String.{◌++◌ as str_append, len, slice, compare as str_compare}
use text.Mathlib.Text.{◌==◌ as str_eq, starts_with}
use logmon_mcp.Common.{
  ℕ, zero, suc, ◌+◌, ◌-◌, Bool, true, false, not, ◌&&◌, ◌||◌, Option, none, some, List, [], ◌∷◌,
  map, String, Ordering, compare, ltb, leb, ◌==◌, if◌then◌else◌, length, keep, any, head?, sat_suc,
}
use logmon_mcp.Filter.{evicted_below}
use logmon_mcp.Ring.{is_some}
use Name.{is_valid_bookmark_name, qualified}
use Map.{get, insert, remove, retain, has_key}

pub record Bookmark : Type 0 where
  pub qualified_name : String
  pub name : String
  pub session : String
  pub seq : ℕ
  pub created_at : ℕ
  pub description : Option String
  pub late_mark : ℕ
  pub floor : ℕ

pub data BookmarkError : Type 0 where
  invalid_name already_exists not_found : String → BookmarkError

pub data Result (A : Type 0) : Type 0 where
  ok : A → Result A
  err : BookmarkError → Result A

abbrev pub Bookmarks : Type 0
Bookmarks = List (String × Bookmark)

pub record BookmarkStore : Type 0 where
  pub bookmarks : Bookmarks
  pub recently_evicted : List String

unfoldable pub new : BookmarkStore
new = record { bookmarks = []; recently_evicted = [] }

-- A handle on a cursor read: what the read began with.
pub record CursorCommit : Type 0 where
  pub qualified_name : String
  pub session : String
  pub name : String
  pub lower_bound : ℕ
  pub late_mark : ℕ
  pub floor : ℕ

unfoldable pub should_evict : ℕ → ℕ → ℕ → Bool
should_evict bookmark_seq log_lost_below span_lost_below =
    let window_start = sat_suc bookmark_seq in
    is_some (evicted_below window_start log_lost_below)
    && is_some (evicted_below window_start span_lost_below)

unfoldable pub add_at :
    BookmarkStore
    → String
    → String
    → ℕ
    → ℕ
    → Option String
    → Bool
    → ℕ
    → BookmarkStore × Result (Bookmark × Bool)
add_at s session name seq late_mark description replace now =
    let qualified_name = qualified session name in
    let bookmark : Bookmark = record {
      qualified_name = qualified_name;
      name = name;
      session = session;
      seq = seq;
      created_at = now;
      description = description;
      late_mark = late_mark;
      floor = seq;
    } in
    let existed = has_key qualified_name s.bookmarks in
    if not (is_valid_bookmark_name name)
    then (s, err (BookmarkError.invalid_name name))
    else if existed && not replace
    then (s, err (BookmarkError.already_exists qualified_name))
    else (
      record s { bookmarks = insert s.bookmarks qualified_name bookmark },
      ok (bookmark, existed),
    )

unfoldable pub add :
    BookmarkStore
    → String
    → String
    → ℕ
    → Option String
    → Bool
    → ℕ
    → BookmarkStore × Result (Bookmark × Bool)
add s session name seq description replace now = add_at s session name seq 0 description replace now

unfoldable pub insert_persisted : BookmarkStore → Bookmark → BookmarkStore
insert_persisted s b = record s { bookmarks = insert s.bookmarks b.qualified_name b }

-- Newest seq first, then by name.
unfoldable pub before : Bookmark → Bookmark → Bool
before a b = elim (compare b.seq a.seq) [
  | Ordering.lt ↦ true
  | Ordering.gt ↦ false
  | Ordering.eq ↦ elim (str_compare a.qualified_name b.qualified_name) [
    | Ordering.gt ↦ false
    | _ ↦ true
  ]
]

unfoldable pub insert_listed : Bookmark → List Bookmark → List Bookmark
insert_listed b [] = b ∷ []
insert_listed b (c ∷ cs) = if before b c then b ∷ c ∷ cs else c ∷ insert_listed b cs

unfoldable pub list : Bookmarks → List Bookmark
list [] = []
list ((k, b) ∷ m) = insert_listed b (list m)

unfoldable pub remove_bookmark : BookmarkStore → String → BookmarkStore × Result (Unit {0})
remove_bookmark s qualified_name =
    if has_key qualified_name s.bookmarks
    then (record s { bookmarks = remove s.bookmarks qualified_name }, ok tt)
    else (s, err (BookmarkError.not_found qualified_name))

abbrev pub max_recently_evicted : ℕ
max_recently_evicted = 1_024

-- `HashSet::insert` and `HashSet::remove`.
unfoldable pub set_insert : String → List String → List String
set_insert name recent = if any (λ r. str_eq r name) recent then recent else name ∷ recent

unfoldable pub set_remove : String → List String → List String
set_remove name recent = keep (λ r. not (str_eq r name)) recent

-- The loop of `sweep` over the evicted names. Which name makes room is up to the set.
module _ (victim : List String → Option String) where
  unfoldable pub note_evicted : List String → List String → List String
  note_evicted [] recent = recent
  note_evicted (name ∷ names) recent =
      let room =
        if leb max_recently_evicted (length recent)
        then elim (victim recent) [ none ↦ recent | some v ↦ set_remove v recent ]
        else recent in
      note_evicted names (set_insert name room)

  unfoldable pub sweep : BookmarkStore → ℕ → ℕ → BookmarkStore
  sweep s log_lost_below span_lost_below =
      let gone = λ (b : Bookmark). should_evict b.seq log_lost_below span_lost_below in
      let evicted = map (λ (k, b). k) (keep (λ (k, b). gone b) s.bookmarks) in
      record {
        bookmarks = retain (λ b. not (gone b)) s.bookmarks;
        recently_evicted = note_evicted evicted s.recently_evicted;
      }

unfoldable pub clear_session : BookmarkStore → String → BookmarkStore × ℕ
clear_session s session =
    let kept = retain (λ b. not (str_eq b.session session)) s.bookmarks in
    (
      record {
        bookmarks = kept;
        recently_evicted =
            keep (λ q. not (starts_with q (str_append session "/"))) s.recently_evicted;
      },
      length s.bookmarks - length kept,
    )

-- The loops of `rename_session`. A listed key is in the map, as the code expects, unless an earlier
-- round has taken it away; then the code would panic, and the round is left out.
unfoldable pub rename_all : String → List String → Bookmarks → Bookmarks
rename_all to [] m = m
rename_all to (key ∷ keys) m = elim (get m key) [
  | none ↦ rename_all to keys m
  | some b ↦ rename_all to keys (
      insert (remove m key) (qualified to b.name)
        (record b { session = to; qualified_name = qualified to b.name }))
]

unfoldable pub rename_recent : String → String → List String → List String → List String
rename_recent old_prefix to [] recent = recent
rename_recent old_prefix to (q ∷ qs) recent =
    rename_recent old_prefix to qs
      (set_insert (qualified to (slice q (len old_prefix) (len q))) (set_remove q recent))

unfoldable pub rename_session : BookmarkStore → String → String → BookmarkStore × ℕ
rename_session s old to =
    let keys = map (λ (k, b). k) (keep (λ (k, b). str_eq b.session old) s.bookmarks) in
    let old_prefix = str_append old "/" in
    let moved = keep (λ q. starts_with q old_prefix) s.recently_evicted in
    if str_eq old to then (s, 0) else (
      record {
        bookmarks = rename_all to keys s.bookmarks;
        recently_evicted = rename_recent old_prefix to moved s.recently_evicted;
      },
      length keys,
    )

-- The bookmark of a cursor that is created by its first read, or again after its eviction.
abbrev pub fresh_cursor : String → String → ℕ → ℕ → Bookmark
fresh_cursor session name late_counter now = record {
  qualified_name = qualified session name;
  name = name;
  session = session;
  seq = 0;
  created_at = now;
  description = none;
  late_mark = late_counter;
  floor = 0;
}

abbrev pub handle_on : String → String → Bookmark → CursorCommit
handle_on session name b = record {
  qualified_name = qualified session name;
  session = session;
  name = name;
  lower_bound = b.seq;
  late_mark = b.late_mark;
  floor = b.floor;
}

unfoldable pub cursor_read_and_advance_at :
    BookmarkStore → String → String → ℕ → ℕ → BookmarkStore × CursorCommit
cursor_read_and_advance_at s session name late_counter now =
    let qualified_name = qualified session name in
    elim (get s.bookmarks qualified_name) [
      | some b ↦ (s, handle_on session name b)
      | none ↦
          let b = fresh_cursor session name late_counter now in
          (
            record {
              bookmarks = insert s.bookmarks qualified_name b;
              recently_evicted = set_remove qualified_name s.recently_evicted;
            },
            handle_on session name b,
          )
    ]

-- `CursorCommit::commit`.
unfoldable pub commit : CursorCommit → Bookmarks → ℕ → ℕ → ℕ → Bookmarks
commit c m seq late_mark now =
    if seq == c.lower_bound && late_mark == c.late_mark then m else elim (get m c.qualified_name) [
      | some b ↦
          if b.seq == c.lower_bound && b.late_mark == c.late_mark
          then insert m c.qualified_name (record b { seq = seq; late_mark = late_mark })
          else m
      | none ↦
          if seq == c.lower_bound
          then m
          else insert m c.qualified_name (record {
            qualified_name = c.qualified_name;
            name = c.name;
            session = c.session;
            seq = seq;
            created_at = now;
            description = none;
            late_mark = late_mark;
            floor = c.floor;
          })
    ]
