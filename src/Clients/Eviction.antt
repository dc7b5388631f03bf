-- ===== src/Clients/Eviction.antt =====
-- `evictOldest` of stores.go removes a client that none was created before.
use kite_mcp_oauth.Prelude.{
  subst, sym, ◌∙◌, ℕ, ◌≤◌, String, ◌≡◌, ◌≢◌, refl, true, false, ◌⊎◌, inl, inr, none, some, [], ◌∷◌,
  arith, eq_iff, Dict, IsDict, lookup, delete, length, ltb, if◌then◌else◌, Bool-cases,
}
use kite_mcp_oauth.Clients.{ClientEntry, ClientStore, scan_oldest, evict_oldest}

-- `range` visits each client of the map once, in some order.
pub record Visits (visited : Dict ClientEntry) (s : ClientStore) : Type 0 where
  pub once : IsDict visited
  pub same : (k : String) → lookup k visited ≡ lookup k s

-- The client is in the map, and none in it was created before.
pub record IsOldest (id : String) (s : ClientStore) : Type 0 where
  pub entry : ClientEntry
  pub present : lookup id s ≡ some entry
  pub earliest :
      (k : String) (c : ClientEntry) → lookup k s ≡ some c → entry.created_at ≤ c.created_at

-- What the loop gives from a client `id` created at `time`: the client itself, or one of those
-- visited, created at `best`, which is no later than `time` and than all that is visited.
record Scanned (id : String) (time : ℕ) (m : Dict ClientEntry) : Type 0 where
  best : ℕ
  source :
      (scan_oldest id time m ≡ id) × (best ≡ time)
      ⊎ (c : ClientEntry) × (lookup (scan_oldest id time m) m ≡ some c) × (c.created_at ≡ best)
  bound : best ≤ time
  least : (k : String) (c : ClientEntry) → lookup k m ≡ some c → best ≤ c.created_at
  named : scan_oldest id time m ≢ ""

scan_oldest-cons :
    (id k : String) (time : ℕ) (c : ClientEntry) (m : Dict ClientEntry)
    → id ≢ ""
    → scan_oldest id time ((k, c) ∷ m)
      ≡ (if ltb c.created_at time then scan_oldest k c.created_at m else scan_oldest id time m)
unfolding scan_oldest
scan_oldest-cons id k time c m n = ground (arith, eq_iff id "")

lookup-cons :
    (k j : String) (c : ClientEntry) (m : Dict ClientEntry) {x : ClientEntry}
    → lookup k m ≡ none
    → lookup j m ≡ some x
    → lookup j ((k, c) ∷ m) ≡ some x
unfolding lookup
lookup-cons k j c m d found = ground (arith, eq_iff k j)

-- The rest of the loop goes on from the client that is visited, or from the one it has.
module _ (id k : String) (time : ℕ) (c : ClientEntry) (m : Dict ClientEntry) where
  Scanned-cons_earlier :
      lookup k m ≡ none
      → id ≢ ""
      → ltb c.created_at time ≡ true
      → Scanned k c.created_at m
      → Scanned id time ((k, c) ∷ m)
  unfolding lookup
  Scanned-cons_earlier d n early r = record {
    best = r.best;
    source = elim r.source [
      | inl (same, at) ↦ inr (c, rw (scan, same) (ground (arith, eq_iff k k)), sym at)
      | inr (x, found, at) ↦ inr (
        x,
        subst (λ j. lookup j ((k, c) ∷ m) ≡ some x) (sym scan) (lookup-cons k _ c m d found),
        at,
      )
    ];
    bound = ground (arith, r.bound);
    least = λ j x h. ground (arith, r.least j x, r.bound);
    named = rw scan r.named;
  }
    where
      scan : scan_oldest id time ((k, c) ∷ m) ≡ scan_oldest k c.created_at m
      scan = ground (arith, scan_oldest-cons id k time c m n)

  Scanned-cons_later :
      lookup k m ≡ none
      → id ≢ ""
      → ltb c.created_at time ≡ false
      → Scanned id time m
      → Scanned id time ((k, c) ∷ m)
  unfolding lookup
  Scanned-cons_later d n late r = record {
    best = r.best;
    source = elim r.source [
      | inl (same, at) ↦ inl (scan ∙ same, at)
      | inr (x, found, at) ↦ inr (
        x,
        subst (λ j. lookup j ((k, c) ∷ m) ≡ some x) (sym scan) (lookup-cons k _ c m d found),
        at,
      )
    ];
    bound = r.bound;
    least = λ j x h. ground (arith, r.least j x, r.bound);
    named = rw scan r.named;
  }
    where
      scan : scan_oldest id time ((k, c) ∷ m) ≡ scan_oldest id time m
      scan = ground (arith, scan_oldest-cons id k time c m n)

-- No binding of an empty key stands in the list.
lookup_named :
    (k : String) (c : ClientEntry) (m : Dict ClientEntry)
    → lookup "" ((k, c) ∷ m) ≡ none
    → (k ≢ "") × (lookup "" m ≡ none)
unfolding lookup
lookup_named k c m e = ground (arith, eq_iff k "")

scan_oldest-Scanned :
    (id : String) (time : ℕ) (m : Dict ClientEntry)
    → id ≢ ""
    → lookup "" m ≡ none
    → IsDict m
    → Scanned id time m
scan_oldest-Scanned id time [] n e d = record {
  best = time;
  source = inl (unfold scan_oldest in (refl, refl));
  bound = omega arith;
  least = λ k c h. unfold lookup in cc;
  named = unfold scan_oldest in n;
}
scan_oldest-Scanned id time ((k, c) ∷ m) n e d =
    let (nk, em) = lookup_named k c m e in
    elim (Bool-cases (ltb c.created_at time)) [
      | inl early ↦
          Scanned-cons_earlier id k time c m d.0 n early
            (scan_oldest-Scanned k c.created_at m nk em d.1)
      | inr late ↦
          Scanned-cons_later id k time c m d.0 n late (scan_oldest-Scanned id time m n em d.1)
    ]

-- The whole loop, on a map with a client.
scan_oldest-IsOldest :
    (k : String) (c : ClientEntry) (m : Dict ClientEntry)
    → lookup "" ((k, c) ∷ m) ≡ none
    → IsDict ((k, c) ∷ m)
    → IsOldest (scan_oldest "" 0 ((k, c) ∷ m)) ((k, c) ∷ m) × (scan_oldest "" 0 ((k, c) ∷ m) ≢ "")
unfolding scan_oldest lookup
scan_oldest-IsOldest k c m e d =
    let (nk, em) = lookup_named k c m e in
    let r = scan_oldest-Scanned k c.created_at m nk em d.1 in
    elim r.source [
      | inl (same, at) ↦ (
        record {
          entry = c;
          present = ground (arith, eq_iff k (scan_oldest k c.created_at m));
          earliest = λ j x h. ground (arith, r.least j x);
        },
        r.named,
      )
      | inr (x, found, at) ↦ (
        record {
          entry = x;
          present = ground (arith, eq_iff k (scan_oldest k c.created_at m));
          earliest = λ j y h. ground (arith, r.least j y, r.bound);
        },
        r.named,
      )
    ]

IsOldest-same :
    (id : String) (visited s : ClientStore)
    → ((k : String) → lookup k visited ≡ lookup k s)
    → IsOldest id visited
    → IsOldest id s
IsOldest-same id visited s same o = record {
  entry = o.entry;
  present = sym (same id) ∙ o.present;
  earliest = λ k c h. o.earliest k c (same k ∙ h);
}

-- Evicting from a map with a client, none of them with an empty id, removes the binding of one of
-- the oldest clients, in whatever order the map is visited.
pub evict_oldest-IsOldest :
    (visited : Dict ClientEntry) (s : ClientStore)
    → Visits visited s
    → lookup "" s ≡ none
    → length visited ≢ 0
    → (id : String) × IsOldest id s × (evict_oldest visited s ≡ delete id s)
unfolding evict_oldest
evict_oldest-IsOldest [] s v e n = absurd (n refl)
evict_oldest-IsOldest ((k, c) ∷ m) s v e n =
    let (oldest, named) = scan_oldest-IsOldest k c m (v.same "" ∙ e) v.once in
    (
      scan_oldest "" 0 ((k, c) ∷ m),
      IsOldest-same _ ((k, c) ∷ m) s v.same oldest,
      ground (arith, eq_iff (scan_oldest "" 0 ((k, c) ∷ m)) ""),
    )
