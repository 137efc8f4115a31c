-- ===== src/OasBundle/Operations/Items.antt =====
-- tools/oas-bundle.rs: the operations of one path.
use lokan_os.Prelude.{false, Option, none, some, List, [], ◌∷◌, ◌++◌, ◌≡◌, subst, arith}
use lokan_os.Prelude.Text.{Text}
use lokan_os.Prelude.Keys.{codes_eq_refl}
use lokan_os.Prelude.Dict.{unwrap_or}
use lokan_os.Prelude.Result.{ok, ◌>>=◌, >>=-eq-ok}
use lokan_os.OasBundle.Loops.{flat, for_each_lem}
use lokan_os.OasBundle.Values.{Yaml, IndexMap, Unicode, for_each, ok_or, and_then, contains}
use lokan_os.OasBundle.{
  Nested, Entries, bucket_of, operation_id_of, new_id, put_operation, add_operation, add_item,
}
use lokan_os.OasBundle.Lookups.{
  value_at, look_in, look_in-bucket_of, value_at-insert, look_in-insert,
}
use lokan_os.OasBundle.Operations.{
  Operation, operation, in_entry, in_mapping, Holds, Holds-eq, Holds-add,
}

module _ (yaml : Yaml) (index : (V : Type 0) → IndexMap V) (unicode : Unicode) where
  open yaml use {Value, Mapping}

  new_id_lem :
      (path path_str : Text) (bucket : Entries yaml index unicode) (ids : List Text) (method : Text)
      (value : Value) (id : Text)
      → new_id yaml index unicode path path_str bucket ids method value ≡ ok id
      → ((index Value).get bucket method ≡ none)
        × (contains ids id ≡ false)
        × (unwrap_or (and_then (yaml.as_mapping value) (operation_id_of yaml index unicode)) []
            ≡ id)
  unfolding new_id
  new_id_lem path path_str bucket ids method value id h =
      (ground (arith, h), ground (arith, h), ground (arith, h))

  put_operation-Holds :
      (combined : Nested yaml index unicode) (path path_str : Text)
      (bucket : Entries yaml index unicode) (ids : List Text) (value : Value) (spelled : Text)
      (s' : Entries yaml index unicode × List Text) (before : List (Operation yaml index unicode))
      → Holds yaml index unicode (look_in yaml index unicode combined path_str bucket) ids before
      → put_operation yaml index unicode path path_str (bucket, ids) value spelled ≡ ok s'
      → Holds yaml index unicode
          (look_in yaml index unicode combined path_str s'.0)
          s'.1
          (before ++ operation yaml index unicode path_str value (some spelled))
  unfolding put_operation
  put_operation-Holds combined path path_str bucket ids value spelled s' before h e =
      let method = unicode.to_lowercase spelled in
      let (id, fresh, put) =
        >>=-eq-ok (new_id yaml index unicode path path_str bucket ids method value) _ e in
      let (absent, new, ident) = new_id_lem path path_str bucket ids method value id fresh in
      let done : ◌≡◌ {A = Entries yaml index unicode × List Text}
          ((index Value).insert bucket method value, id ∷ ids) s' =
        cc put in
      let o : Operation yaml index unicode = record {
        path = path_str;
        method = method;
        value = value;
      } in
      subst
        (λ (t : Entries yaml index unicode × List Text).
          Holds yaml index unicode (look_in yaml index unicode combined path_str t.0) t.1
            (before ++ o ∷ []))
        done
        (subst
          (λ k.
            Holds yaml index unicode
              (look_in yaml index unicode combined path_str
                ((index Value).insert bucket method value))
              (k ∷ ids) (before ++ o ∷ []))
          ident
          (Holds-add yaml index unicode o (rw (codes_eq_refl path_str) absent) (rw ident new)
            (look_in-insert yaml index unicode combined path_str bucket method value) h))

  named-Holds :
      (combined : Nested yaml index unicode) (path path_str message : Text)
      (s : Entries yaml index unicode × List Text) (value : Value) (named : Option Text)
      (s' : Entries yaml index unicode × List Text) (before : List (Operation yaml index unicode))
      → Holds yaml index unicode (look_in yaml index unicode combined path_str s.0) s.1 before
      → (ok_or named message >>= λ spelled.
          put_operation yaml index unicode path path_str s value spelled)
        ≡ ok s'
      → Holds yaml index unicode
          (look_in yaml index unicode combined path_str s'.0)
          s'.1
          (before ++ operation yaml index unicode path_str value named)
  named-Holds combined path path_str message s value none s' before h e = absurd (cc e)
  named-Holds combined path path_str message (bucket, ids) value (some spelled) s' before h e =
      put_operation-Holds combined path path_str bucket ids value spelled s' before h e

  add_operation-Holds :
      (combined : Nested yaml index unicode) (path path_str : Text)
      (s : Entries yaml index unicode × List Text) (entry : Value × Value)
      (s' : Entries yaml index unicode × List Text) (before : List (Operation yaml index unicode))
      → Holds yaml index unicode (look_in yaml index unicode combined path_str s.0) s.1 before
      → add_operation yaml index unicode path path_str s entry ≡ ok s'
      → Holds yaml index unicode
          (look_in yaml index unicode combined path_str s'.0)
          s'.1
          (before ++ in_entry yaml index unicode path_str entry)
  unfolding add_operation
  add_operation-Holds combined path path_str s (key, value) s' before h e =
      named-Holds combined path path_str _ s value (yaml.as_str key) s' before h e

  -- A path that is added, its name and its item read.
  pub item-Holds :
      (path : Text) (combined : Nested yaml index unicode) (ids : List Text) (path_str : Text)
      (item : Mapping) (s' : Nested yaml index unicode × List Text)
      (before : List (Operation yaml index unicode))
      → Holds yaml index unicode (value_at yaml index unicode combined) ids before
      → add_item yaml index unicode path combined ids path_str item ≡ ok s'
      → Holds yaml index unicode
          (value_at yaml index unicode s'.0)
          s'.1
          (before ++ in_mapping yaml index unicode (some path_str) (some item))
  unfolding add_item
  item-Holds path combined ids path_str item s' before h e =
      let body = add_operation yaml index unicode path path_str in
      let start : Entries yaml index unicode × List Text =
        (bucket_of yaml index unicode combined path_str, ids) in
      let (filled, loop, put) = >>=-eq-ok (for_each body start (yaml.entries item)) _ e in
      let inside =
        for_each_lem
          (λ t ops.
            Holds yaml index unicode (look_in yaml index unicode combined path_str t.0) t.1 ops)
          body (in_entry yaml index unicode path_str) (add_operation-Holds combined path path_str)
          start (yaml.entries item) filled before
          (Holds-eq yaml index unicode (look_in-bucket_of yaml index unicode combined path_str) h)
          loop in
      let combined' = (index (Entries yaml index unicode)).insert combined path_str filled.0 in
      let done : ◌≡◌ {A = Nested yaml index unicode × List Text} (combined', filled.1) s' =
        cc put in
      subst
        (λ (t : Nested yaml index unicode × List Text).
          Holds yaml index unicode (value_at yaml index unicode t.0) t.1
            (before ++ flat (in_entry yaml index unicode path_str) (yaml.entries item)))
        done
        (Holds-eq yaml index unicode (value_at-insert yaml index unicode combined path_str filled.0)
          inside)
