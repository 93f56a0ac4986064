-- ===== src/Net/Multiplex/Valid.antt =====
-- What holds of a mux (pkg/net/multiplex/mux.go) whatever is done with it.
use nri.Base.{
  nat_eq, nat_beq_iff, ℕ, ◌<◌, ◌≡◌, ◌≢◌, refl, sym, ap, ◌∙◌, Bool, true, false, none, some, [], ◌∷◌,
  nat_beq, if◌then◌else◌, arith, Bool-cases, Option-cases, inl, inr,
}
use nri.Base.Map.{Map, lookup, delete, lookup-insert, lookup-delete}
use nri.Net.Multiplex.Frames.{Trunk, MuxError}
use nri.Net.Multiplex.Conns.{
  Conn, Mux, set_error, error, close, open_, close_conn, finish, finish_all, is_at,
}

module _ (trunk : Trunk) where
  -- The connections that are registered, and the error that is kept.
  pub record IsValid (m : Mux trunk) : Type 0 where
    pub reserved : lookup 0 m.conns ≡ none
    pub same_id : (id h : ℕ) → lookup id m.conns ≡ some h → (m.store h).id ≡ id
    pub allocated : (id h : ℕ) → lookup id m.conns ≡ some h → h < m.next
    pub live : (id h : ℕ) → m.closed ≡ false → lookup id m.conns ≡ some h → (m.store h).done ≡ false
    pub explained : m.err_once ≡ true → m.err ≢ none

  pub if-IsValid :
      (b : Bool) (x y : Mux trunk) → IsValid x → IsValid y → IsValid (if b then x else y)
  if-IsValid true x y v w = v
  if-IsValid false x y v w = w

  pub if-IsValid_second :
      {A : Type 0} (b : Bool) (x y : A × Mux trunk)
      → IsValid x.1
      → IsValid y.1
      → IsValid (if b then x else y).1
  if-IsValid_second true x y v w = v
  if-IsValid_second false x y v w = w

  -- Nothing that counts has changed but the error that is kept.
  with_error :
      (e : MuxError) (m : Mux trunk)
      → IsValid m
      → IsValid (record m { err_once = true; err = some e })
  with_error e m v = record {
    reserved = v.reserved;
    same_id = v.same_id;
    allocated = v.allocated;
    live = v.live;
    explained = λ once. ground arith;
  }

  pub set_error-IsValid : (e : MuxError) (m : Mux trunk) → IsValid m → IsValid (set_error trunk e m)
  unfolding set_error
  set_error-IsValid e m v = if-IsValid m.err_once m _ v (with_error e m v)

  pub error-IsValid : (m : Mux trunk) → IsValid m → IsValid (error trunk m).1
  unfolding error
  error-IsValid m v = if-IsValid_second m.err_once (m.err, m) _ v (with_error _ m v)

  finish_id : (h g : ℕ) (store : ℕ → Conn) → (finish trunk g store h).id ≡ (store h).id
  unfolding finish
  finish_id h g store = elim (Bool-cases (nat_beq h g)) [
    | inl same ↦ rw (same, (nat_beq_iff h g).0 same) refl
    | inr other ↦ rw other refl
  ]

  finish_all_id :
      (h : ℕ) (conns : Map ℕ ℕ) (store : ℕ → Conn)
      → (finish_all trunk conns store h).id ≡ (store h).id
  unfolding finish
  finish_all_id h [] store = refl
  finish_all_id h ((id, g) ∷ rest) store =
      finish_all_id h rest (finish trunk g store) ∙ finish_id h g store

  pub close-IsValid : (m : Mux trunk) → IsValid m → IsValid (close trunk m)
  unfolding close
  close-IsValid m v = if-IsValid m.closed m _ v (record {
    reserved = v.reserved;
    same_id = λ id h at. finish_all_id h m.conns m.store ∙ v.same_id id h at;
    allocated = v.allocated;
    live = λ id h up at. ground arith;
    explained = v.explained;
  })

  pub open-IsValid : (id : ℕ) (m : Mux trunk) → IsValid m → IsValid (open_ trunk id m).1
  unfolding open_
  open-IsValid id m v = elim (Bool-cases (nat_beq id 0)) [
    | inl zero_ ↦ rw zero_ v
    | inr fine ↦ elim (Option-cases (lookup id m.conns)) [
      | inr (h, known) ↦ rw (fine, known) v
      | inl new ↦
          rw (fine, new)
            (record {
              reserved = ground (arith, lookup-insert id 0 m.next m.conns, v.reserved);
              same_id = λ id' h at.
                  ground (
                    arith,
                    lookup-insert id id' m.next m.conns,
                    v.same_id id' h,
                    v.allocated id' h,
                  );
              allocated = λ id' h at.
                  ground (arith, lookup-insert id id' m.next m.conns, v.allocated id' h);
              live = λ id' h up at.
                  ground
                    (arith, lookup-insert id id' m.next m.conns, v.live id' h, v.allocated id' h);
              explained = v.explained;
            })
    ]
  ]

  still_registered :
      (b : Bool) (id j h : ℕ) (conns : Map ℕ ℕ)
      → lookup j (if b then delete id conns else conns) ≡ some h
      → (lookup j conns ≡ some h) × (b ≡ true → j ≢ id)
  still_registered true id j h conns at =
      (ground (arith, lookup-delete id j conns), λ _ same. ground (arith, lookup-delete id j conns))
  still_registered false id j h conns at = (at, λ wrong. ground arith)

  finish_other :
      (h g : ℕ) (store : ℕ → Conn) → nat_beq h g ≡ false → finish trunk g store h ≡ store h
  unfolding finish
  finish_other h g store other = rw other refl

  -- A connection that is closed was registered under its own id, so it is so no longer.
  removed :
      (h j g : ℕ) (m : Mux trunk)
      → IsValid m
      → g ≡ h
      → (lookup j m.conns ≡ some g)
        × (is_at trunk (m.store h).id h m.conns ≡ true → j ≢ (m.store h).id)
      → ⊥
  removed h j g m v same old =
      let at_h = old.0 ∙ ap some same in
      let id = v.same_id j h at_h in old.1 (rw (id, is_at, at_h) (ground arith)) (sym id)

  pub close_conn-IsValid : (h : ℕ) (m : Mux trunk) → IsValid m → IsValid (close_conn trunk h m)
  unfolding close_conn
  close_conn-IsValid h m v =
      let id = (m.store h).id in
      let here = is_at trunk id h m.conns in
      record {
        reserved = ground (arith, lookup-delete id 0 m.conns, v.reserved);
        same_id = λ j g at.
            let old = still_registered here id j g m.conns at in
            finish_id g h m.store ∙ v.same_id j g old.0;
        allocated = λ j g at. v.allocated j g (still_registered here id j g m.conns at).0;
        live = λ j g up at.
            let old = still_registered here id j g m.conns at in
            elim (Bool-cases (nat_beq g h)) [
              | inl same ↦ absurd (removed h j g m v ((nat_beq_iff g h).0 same) old)
              | inr other ↦ ap Conn.done (finish_other g h m.store other) ∙ v.live j g up old.0
            ];
        explained = v.explained;
      }
