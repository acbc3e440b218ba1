-- ===== src/Store/Table.antt =====
-- What the numbered tables of the store have in common: rows under ids that a counter hands out,
-- and a scan that refuses a second row for the same name (or revision number) of a fleet.
use proxydock.Prelude.{
  Bool, Option-cases, [], any, arith, false, inl, inr, nat_eq, none, not, some, text_eq, true, ℕ,
  ◌&&◌, ◌+◌, ◌==◌, ◌≡◌, ◌≤◌,
}
use proxydock.Prelude.GoMap.{
  GoMap, IsMap, any-false, delete, delete-IsMap, delete_where, delete_where-IsMap, get, get-delete,
  get-delete_where, get-put, put, put-IsMap, values,
}

-- A well-formed table: no id twice, each row carries its own id, no id above the counter, and no two
-- rows that conflict.
pub record TableOk {V : Type 0} (ident : V → ℕ) (conflict : V → V → Bool) (seq : ℕ) (m : GoMap ℕ V)
    : Type 0 where
  pub is_map : IsMap m
  pub own_id : (k : ℕ) (v : V) → get k m ≡ some v → ident v ≡ k
  pub bounded : (k : ℕ) (v : V) → get k m ≡ some v → k ≤ seq
  pub unique :
      (j k : ℕ) (v w : V) → get j m ≡ some v → get k m ≡ some w → conflict v w ≡ true → j ≡ k

module _ {V : Type 0} (ident : V → ℕ) (conflict : V → V → Bool) where
  pub empty-TableOk : TableOk ident conflict 0 []
  unfolding get
  empty-TableOk = record {
    is_map = tt;
    own_id = λ k v h. ground arith;
    bounded = λ k v h. ground arith;
    unique = λ j k v w h g c. ground arith;
  }

  module _ {seq : ℕ} {m : GoMap ℕ V} (t : TableOk ident conflict seq m) where
    -- The id after the counter is free.
    pub fresh : get (seq + 1) m ≡ none
    fresh = elim (Option-cases (get (seq + 1) m)) [
      | inl e ↦ e
      | inr (v, e) ↦ absurd (omega (arith, t.bounded (seq + 1) v e))
    ]

    pub delete-TableOk : (k : ℕ) → TableOk ident conflict seq (delete k m)
    delete-TableOk k = record {
      is_map = delete-IsMap k m t.is_map;
      own_id = λ j v h. ground (arith, get-delete k j m, t.own_id j v);
      bounded = λ j v h. ground (arith, get-delete k j m, t.bounded j v);
      unique =
          λ i j v w h g c. ground (arith, get-delete k i m, get-delete k j m, t.unique i j v w);
    }

    pub delete_where-TableOk : (p : V → Bool) → TableOk ident conflict seq (delete_where p m)
    delete_where-TableOk p = record {
      is_map = delete_where-IsMap p m t.is_map;
      own_id = λ j v h. ground (arith, get-delete_where p j m t.is_map, t.own_id j v);
      bounded = λ j v h. ground (arith, get-delete_where p j m t.is_map, t.bounded j v);
      unique = λ i j v w h g c. ground (
        arith,
        get-delete_where p i m t.is_map,
        get-delete_where p j m t.is_map,
        t.unique i j v w,
      );
    }

    -- A row is rewritten, and conflicts with what it conflicted with.
    pub rewrite-TableOk :
        (k : ℕ) (cur v : V)
        → get k m ≡ some cur
        → ident v ≡ k
        → ((w : V) → conflict v w ≡ conflict cur w)
        → ((w : V) → conflict w v ≡ conflict w cur)
        → TableOk ident conflict seq (put k v m)
    rewrite-TableOk k cur v there id left right = record {
      is_map = put-IsMap k v m t.is_map;
      own_id = λ j w h. ground (arith, get-put k j v m, t.own_id j w);
      bounded = λ j w h. ground (arith, get-put k j v m, t.bounded j w, t.bounded k cur);
      unique = λ i j w u h g c. ground (
        arith,
        get-put k i v m,
        get-put k j v m,
        left u,
        right w,
        t.unique i j w u,
        t.unique i j cur u,
        t.unique i j w cur,
      );
    }

    module _ (symmetric : (v w : V) → conflict v w ≡ true → conflict w v ≡ true) where
      -- A create: the scan found no conflict, and the row goes under the next id.
      pub create-TableOk :
          (v : V)
          → ident v ≡ seq + 1
          → any (conflict v) (values m) ≡ false
          → TableOk ident conflict (seq + 1) (put (seq + 1) v m)
      create-TableOk v id none_found = record {
        is_map = put-IsMap (seq + 1) v m t.is_map;
        own_id = λ j w h. ground (arith, get-put (seq + 1) j v m, t.own_id j w);
        bounded = λ j w h. ground (arith, get-put (seq + 1) j v m, t.bounded j w);
        unique = λ i j w u h g c. ground (
          arith,
          get-put (seq + 1) i v m,
          get-put (seq + 1) j v m,
          t.unique i j w u,
          symmetric w v,
          any-false (conflict v) m i w none_found,
          any-false (conflict v) m j u none_found,
        );
      }

      -- An update: no other row conflicts with the new one.
      pub update-TableOk :
          (k : ℕ) (cur v : V)
          → get k m ≡ some cur
          → ident v ≡ k
          → any (λ existing. not (ident existing == k) && conflict v existing) (values m) ≡ false
          → TableOk ident conflict seq (put k v m)
      update-TableOk k cur v there id none_found = record {
        is_map = put-IsMap k v m t.is_map;
        own_id = λ j w h. ground (arith, get-put k j v m, t.own_id j w);
        bounded = λ j w h. ground (arith, get-put k j v m, t.bounded j w, t.bounded k cur);
        unique = λ i j w u h g c. ground (
          arith,
          get-put k i v m,
          get-put k j v m,
          t.unique i j w u,
          symmetric w v,
          t.own_id i w,
          t.own_id j u,
          any-false (λ existing. not (ident existing == k) && conflict v existing) m i w none_found,
          any-false (λ existing. not (ident existing == k) && conflict v existing) m j u none_found,
        );
      }
