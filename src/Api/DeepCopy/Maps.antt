-- ===== src/Api/DeepCopy/Maps.antt =====
-- The copy of a map, entry by entry.
use costguard_operator.Base.{
  ◌≡◌, refl, sym, ap, ◌∙◌, String, false, [], ◌∷◌, ◌++◌, Option, none, some, Map, Distinct, lookup,
  insert, copy_into, arith, ◌==◌, eq_iff,
}
use mathlib.Core.List.{append_assoc, append-nil}
use costguard_operator.Api.Memory.{Ptr, Object, Memory, string_map, pure, ◌>>=◌, ◌>>◌, new, store}
use costguard_operator.Api.Memory.Copying.{Yields, Copies}
use costguard_operator.Api.Memory.Reads.{Entries, Points}
use costguard_operator.Api.DeepCopy.{as_map, set_entry, set_entries, copy_map}
use costguard_operator.Api.Memory.Writes.{bumped, written, written_self, written_other}
use costguard_operator.Api.DeepCopy.Parts.{load_as_lem}

-- None of the keys of the second map is in the first.
abbrev Apart : Map String → Map String → Type 0
Apart d [] = Unit
Apart d ((k, v) ∷ m) = (lookup k d ≡ none) × Apart d m

insert_last : (k v : String) (d : Map String) → lookup k d ≡ none → insert k v d ≡ d ++ (k, v) ∷ []
unfolding lookup insert
insert_last k v [] h = refl
insert_last k v ((j, w) ∷ d) h = ground (arith, insert_last k v d)

lookup_last :
    (j k v : String) (d : Map String)
    → lookup j d ≡ none
    → (k == j) ≡ false
    → lookup j (d ++ (k, v) ∷ []) ≡ none
unfolding lookup
lookup_last j k v [] h differs = ground arith
lookup_last j k v ((i, w) ∷ d) h differs = ground (arith, lookup_last j k v d)

other_way : (a b : String) → (a == b) ≡ false → (b == a) ≡ false
other_way a b h = ground (arith, eq_iff a b, eq_iff b a)

first_differs :
    (k j w : String) (m : Map String)
    → lookup k ((j, w) ∷ m) ≡ none
    → ((j == k) ≡ false) × (lookup k m ≡ none)
unfolding lookup
first_differs k j w m h = ground arith

Apart-last :
    (k v : String) (d m : Map String) → lookup k m ≡ none → Apart d m → Apart (d ++ (k, v) ∷ []) m
Apart-last k v d [] h a = tt
Apart-last k v d ((j, w) ∷ m) h (unused, a) =
    let (differs, later) = first_differs k j w m h in
    (lookup_last j k v d unused (other_way j k differs), Apart-last k v d m later a)

copy_into-append : (d m : Map String) → Distinct m → Apart d m → copy_into d m ≡ d ++ m
unfolding copy_into
copy_into-append d [] distinct a = sym (append-nil d)
copy_into-append d ((k, v) ∷ m) (fresh, distinct) (unused, a) =
    ap (λ (e : Map String). copy_into e m) (insert_last k v d unused)
    ∙ copy_into-append (d ++ (k, v) ∷ []) m distinct (Apart-last k v d m fresh a)
    ∙ append_assoc d ((k, v) ∷ []) m

Apart-nil : (m : Map String) → Apart [] m
unfolding lookup
Apart-nil [] = tt
Apart-nil ((k, v) ∷ m) = (refl, Apart-nil m)

copied_entries : (m : Map String) → Distinct m → copy_into [] m ≡ m
copied_entries m distinct = copy_into-append [] m distinct (Apart-nil m)

module _ {ObjectMeta ListMeta : Type 0} where
  -- The map at `q` holds `m`, and nothing else has changed.
  record Filled (q : Ptr) (m : Map String) (h : Memory ObjectMeta ListMeta)
      (r : Option (Unit {0} × Memory ObjectMeta ListMeta)) : Type 0 where
    after : Memory ObjectMeta ListMeta
    returns : r ≡ some (tt, after)
    next : after.next ≡ h.next
    held : after.cell q ≡ some (string_map m)
    others : (a : Ptr) → (a ≡ q → ⊥) → after.cell a ≡ h.cell a

  set_entry_lem :
      (q : Ptr) (k v : String) (m : Map String) (h : Memory ObjectMeta ListMeta)
      → h.cell q ≡ some (string_map m)
      → set_entry q k v h ≡ some (tt, written q (string_map (insert k v m)) h)
  unfolding set_entry store written
  set_entry_lem q k v m h held =
      ap
        (λ (r : Option (Map String × Memory ObjectMeta ListMeta)).
          ((λ (t : Memory ObjectMeta ListMeta). r) >>= λ e. store q (string_map (insert k v e))) h)
        (load_as_lem as_map string_map q m h refl held)

  set_entries-Filled :
      (q : Ptr) (m d : Map String) (h : Memory ObjectMeta ListMeta)
      → h.cell q ≡ some (string_map d)
      → Filled q (copy_into d m) h (set_entries q m h)
  unfolding set_entries copy_into written
  set_entries-Filled q [] d h held = record {
    after = h;
    returns = refl;
    next = refl;
    held = held;
    others = λ a differs. refl;
  }
  set_entries-Filled q ((k, v) ∷ m) d h held =
      let h1 = written q (string_map (insert k v d)) h in
      let rest =
        set_entries-Filled q m (insert k v d) h1 (written_self q (string_map (insert k v d)) h) in
      record {
        after = rest.after;
        returns =
            ap
              (λ (r : Option (Unit {0} × Memory ObjectMeta ListMeta)).
                ((λ (t : Memory ObjectMeta ListMeta). r) >> set_entries q m) h)
              (set_entry_lem q k v d h held)
            ∙ rest.returns;
        next = rest.next ∙ same_next (string_map (insert k v d)) h;
        held = rest.held;
        others = λ a differs.
            rest.others a differs ∙ written_other q a (string_map (insert k v d)) h differs;
      }
    where
      same_next :
          (x : Object ObjectMeta ListMeta) (t : Memory ObjectMeta ListMeta)
          → (written q x t).next ≡ t.next
      same_next x t = refl

  pub copy_map-Copies :
      Copies {ObjectMeta = ObjectMeta} {ListMeta = ListMeta} (Points string_map Entries) copy_map
  unfolding copy_map new store bumped written
  copy_map-Copies = record {
    copied = λ lo hi h p v below r. copy_of h p v r.content r.cell r.reads.0 r.reads.1;
  }
    where
      copy_of :
          (h : Memory ObjectMeta ListMeta) (p : Ptr) (v m : Map String)
          → h.cell p ≡ some (string_map m)
          → m ≡ v
          → Distinct v
          → Yields (λ q h'. Points string_map Entries h.next h'.next h' q v) h (copy_map p h)
      copy_of h p v m there same distinct =
          let q = h.next in
          let h2 = written q (string_map []) (bumped h) in
          let fill = set_entries-Filled q m [] h2 (written_self q (string_map []) (bumped h)) in
          record {
            value = q;
            after = fill.after;
            returns =
                ap
                  (λ (r : Option (Map String × Memory ObjectMeta ListMeta)).
                    ((λ (t : Memory ObjectMeta ListMeta). r) >>= λ e.
                    new >>= λ s. store s (string_map []) >> (set_entries s e >> pure s))
                      h)
                  (load_as_lem as_map string_map p m h refl there)
                ∙ ap
                    (λ (r : Option (Unit {0} × Memory ObjectMeta ListMeta)).
                      ((λ (t : Memory ObjectMeta ListMeta). r) >> pure q) h2)
                    fill.returns;
            grown = record {
              extended = omega (arith, fill.next);
              kept = λ a lo below.
                  fill.others a (λ e. absurd (omega (arith, e, below)))
                  ∙ written_other q a (string_map []) (bumped h)
                      (λ e. absurd (omega (arith, e, below)));
            };
            holds = record {
              content = v;
              above = omega arith;
              below = omega (arith, fill.next);
              cell =
                  fill.held
                  ∙ ap
                      (λ (e : Map String).
                        let o : Option (Object ObjectMeta ListMeta) =
                          some (string_map (copy_into [] e)) in
                        o)
                      same
                  ∙ ap
                      (λ (e : Map String).
                        let o : Option (Object ObjectMeta ListMeta) = some (string_map e) in o)
                      (copied_entries v distinct);
              reads = (refl, distinct);
            };
          }
