-- ===== src/Blacklist/Hits.antt =====
-- Theorems on `hitFor`: whom an entry stops, and what adding and removing one changes.
use qq_group_ops.Blacklist.{
  is_global, Blacklist, BlacklistEntry, BlacklistScope, BlacklistAddInput, group_scope,
  global_scope, key_of, hit_for, has_global, add, remove, entry_of, key_of_entry, stored_group,
}
use qq_group_ops.Base.{
  ◌||◌, ◌≡◌, ◌≢◌, refl, sym, ◌∙◌, ap, String, Bool, true, false, not, ◌&&◌, Option, none, some,
  List, arith, nat_eq, string_eq, ◌==◌, if◌then◌else◌,
}
use Prim.Native.Char.{Char, code}
use Prim.Native.String.append
use text.Mathlib.TextLemmas.{append_cancel_left, append_assoc}
use qq_group_ops.Base.Dict.{lookup, insert, has, lookup-insert, lookup-erase}
use qq_group_ops.Base.Text.{concat}
use qq_group_ops.Base.Keys.{separator, is_plain, split_at_nul, separator-cons, cons-injective}
use qq_group_ops.Core.Platform.{Host, World, Readings}

group_key-injective :
    (group group' user user' : String)
    → is_plain group ≡ true
    → is_plain group' ≡ true
    → key_of group_scope group user ≡ key_of group_scope group' user'
    → (◌≡◌ {A = String} group group') × (◌≡◌ {A = String} user user')
unfolding key_of
group_key-injective group group' user user' p q e =
    let tail = λ (g u : String). concat g (concat separator u) in
    let e1 =
      append_cancel_left "group" (concat separator (tail group user))
        (concat separator (tail group' user')) e in
    let e2 = append_cancel_left separator (tail group user) (tail group' user') e1 in
    split_at_nul group group' user user' p q (
      ap (concat group) (sym (separator-cons user))
      ∙ e2
      ∙ ap (concat group') (separator-cons user'))

global_key-injective :
    (user user' : String)
    → key_of global_scope "" user ≡ key_of global_scope "" user'
    → ◌≡◌ {A = String} user user'
unfolding key_of
global_key-injective user user' e =
    let tail = λ (u : String). concat "" (concat separator u) in
    let e1 =
      append_cancel_left "global" (concat separator (tail user)) (concat separator (tail user'))
        e in
    append_cancel_left separator user user'
      (append_cancel_left "" _ _ (append_cancel_left separator (tail user) (tail user') e1))

after_first :
    (c : Char) (s x : String)
    → ◌≡◌ {A = String} (concat (concat (String.◌∷◌ c String.[]) s) x) (String.◌∷◌ c (concat s x))
after_first c s x =
    append_assoc (String.◌∷◌ c String.[]) s x
    ∙ append.cons c String.[] (concat s x)
    ∙ ap (String.◌∷◌ c) (append.nil (concat s x))

keys-ne : (group user user' : String) → key_of group_scope group user ≢ key_of global_scope "" user'
unfolding key_of
keys-ne group user user' e =
    let x = concat separator (concat group (concat separator user)) in
    let y = concat separator (concat "" (concat separator user')) in
    let e1 = sym (append_assoc "g" "roup" x) ∙ e ∙ append_assoc "g" "lobal" y in
    let e2 = append_cancel_left "g" (concat "roup" x) (concat "lobal" y) e1 in
    let e3 = sym (after_first "r" "oup" x) ∙ e2 ∙ after_first "l" "obal" y in
    let h = (cons-injective "r" "l" (concat "oup" x) (concat "obal" y) e3).0 in
    absurd (ground (arith, ap code h))

-- Tests on keys are tests on their parts.
group_key-eq :
    (group group' user user' : String)
    → is_plain group ≡ true
    → is_plain group' ≡ true
    → (key_of group_scope group user == key_of group_scope group' user')
      ≡ (group == group' && user == user')
group_key-eq group group' user user' p q =
    ground (arith, group_key-injective group group' user user' p q)

global_key-eq :
    (user user' : String)
    → (key_of global_scope "" user == key_of global_scope "" user') ≡ (user == user')
global_key-eq user user' = ground (arith, global_key-injective user user')

-- Whom an entry stops: everyone it names, in its group or everywhere.
abbrev pub applies : BlacklistEntry → String → String → Bool
applies e group user =
    if is_global e.scope then user == e.user_id else group == e.group_id && user == e.user_id

abbrev pub is_global_hit : Option BlacklistEntry → Bool
is_global_hit none = false
is_global_hit (some e) = is_global e.scope

module _ (s s' : Blacklist) (e : BlacklistEntry) (group user : String) where
  stored_at-hit_for :
      (scope : BlacklistScope) (g u : String)
      → ((k : String)
          → lookup k s'.entries ≡ (if k == key_of scope g u then some e else lookup k s.entries))
      → stored_group scope (some g) ≡ g
      → is_plain group ≡ true
      → is_plain g ≡ true
      → hit_for group user s' ≡ (
          if (if is_global scope then user == u else group == g && user == u)
            && (is_global scope || not (has_global user s))
          then some e
          else hit_for group user s)
  unfolding hit_for has_global
  stored_at-hit_for group_scope g u same kept p q = ground (
    arith,
    same (key_of global_scope "" user),
    same (key_of group_scope group user),
    group_key-eq group g user u p q,
    keys-ne g u user,
  )
  stored_at-hit_for global_scope g u same kept p q = ground (
    arith,
    same (key_of global_scope "" user),
    same (key_of group_scope group user),
    ap (λ t. key_of global_scope t u) kept,
    global_key-eq user u,
    keys-ne group user u,
  )

module _ (host : Host) (env : Readings) (bound : List String) (input : BlacklistAddInput)
    (w : World) (s : Blacklist) where
  lookup-add :
      (k : String)
      → lookup k (add host env bound input w s).2.entries ≡ (
          if k == key_of_entry (entry_of env input)
          then some (entry_of env input)
          else lookup k s.entries)
  unfolding add
  lookup-add k = lookup-insert k (key_of_entry (entry_of env input)) (entry_of env input) s.entries

  stored_group_twice :
      (scope : BlacklistScope) (group : Option String)
      → stored_group scope (some (stored_group scope group)) ≡ stored_group scope group
  stored_group_twice group_scope group = refl
  stored_group_twice global_scope group = refl

  -- Whatever the platform answers, and for ids of groups without the separator of keys: after an
  -- entry is added, it is the one that stops exactly those that it names, in its group or in every
  -- group, except that an entry for one group stands behind one that the user has for every group;
  -- for all others the entry that stops them, if any, is the one from before.
  pub hit_for-add :
      (group user : String)
      → is_plain group ≡ true
      → is_plain (entry_of env input).group_id ≡ true
      → hit_for group user (add host env bound input w s).2 ≡ (
          if applies (entry_of env input) group user
            && (is_global input.scope || not (has_global user s))
          then some (entry_of env input)
          else hit_for group user s)
  hit_for-add group user p q =
      stored_at-hit_for s (add host env bound input w s).2 (entry_of env input) group user
        input.scope (entry_of env input).group_id input.user_id lookup-add
        (stored_group_twice input.scope input.group_id) p q

module _ (host host' : Host) (env : Readings) (bound : List String) (input : BlacklistAddInput)
    (w w' : World) (s : Blacklist) where
  lookup-remove-add :
      (k : String)
      → has (key_of_entry (entry_of env input)) s.entries ≡ false
      → (remove host' input.scope input.group_id input.user_id w'
            (add host env bound input w s).2).0
          ≡ true
        × (lookup k
              (remove host' input.scope input.group_id input.user_id w'
                (add host env bound input w s).2).2.entries
            ≡ lookup k s.entries)
  unfolding add remove
  lookup-remove-add k absent =
      let e = entry_of env input in
      ground (
        arith,
        absent,
        lookup-insert (key_of_entry e) (key_of_entry e) e s.entries,
        lookup-insert k (key_of_entry e) e s.entries,
        lookup-erase k (key_of_entry e) (insert (key_of_entry e) e s.entries),
      )

  -- For an entry that was not there: adding it and removing it again reports that it was removed,
  -- and everyone is stopped, or not, by what stopped them before, whatever the platform answers to
  -- both.
  pub remove-add :
      has (key_of_entry (entry_of env input)) s.entries ≡ false
      → ((remove host' input.scope input.group_id input.user_id w'
            (add host env bound input w s).2).0
          ≡ true)
        × ((group user : String)
            → hit_for group user
                (remove host' input.scope input.group_id input.user_id w'
                  (add host env bound input w s).2).2
              ≡ hit_for group user s)
  unfolding hit_for
  remove-add absent = (
    (lookup-remove-add "" absent).0,
    λ group user. ground (
      arith,
      lookup-remove-add (key_of global_scope "" user) absent,
      lookup-remove-add (key_of group_scope group user) absent,
    ),
  )
