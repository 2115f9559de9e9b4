-- ===== src/Node/Entry/Key.antt =====
-- The keys of entries tell them apart.
use nbagent.Base.{
  ℕ, ◌≡◌, refl, ap, subst, codes, sym, ◌∙◌, [], ◌∷◌, ◌++◌, arith, Text, length, length-append,
}
use nbagent.Node.Entry.{EntryType, invalidate, http, rpc, entry_type_name, get_uri2}

last : Text → ℕ
last [] = 0
last (b ∷ []) = b
last (b ∷ d ∷ s) = last (d ∷ s)

last-append : (s : Text) (b : ℕ) (t : Text) → last (s ++ (b ∷ t)) ≡ last (b ∷ t)
unfolding last
last-append [] b t = refl
last-append (a ∷ []) b t = refl
last-append (a ∷ d ∷ s) b t = last-append (d ∷ s) b t

last-get_uri2 : (uri : Text) (t : EntryType) → last (get_uri2 uri t) ≡ last (entry_type_name t)
unfolding get_uri2 last
last-get_uri2 uri invalidate = last-append uri _ _
last-get_uri2 uri http = last-append uri _ _
last-get_uri2 uri rpc = last-append uri _ _

entry_type_of_last : (t u : EntryType) → last (entry_type_name t) ≡ last (entry_type_name u) → t ≡ u
unfolding last entry_type_name
entry_type_of_last t u h = ground arith

append_cancel : (s t u : Text) → s ++ u ≡ t ++ u → s ≡ t
append_cancel [] [] u h = refl
append_cancel [] (b ∷ t) u h = absurd (omega (arith, ap length h, length-append t u))
append_cancel (a ∷ s) [] u h = absurd (omega (arith, ap length h, length-append s u))
append_cancel (a ∷ s) (b ∷ t) u h = cc (append_cancel s t u (ground arith))

-- Entries with the same key have the same uri and the same type.
get_uri2_injective :
    (uri uri' : Text) (t u : EntryType) → get_uri2 uri t ≡ get_uri2 uri' u → (uri ≡ uri') × (t ≡ u)
unfolding get_uri2
get_uri2_injective uri uri' t u h =
    let same : t ≡ u =
      entry_type_of_last t u (sym (last-get_uri2 uri t) ∙ ap last h ∙ last-get_uri2 uri' u) in
    let moved : get_uri2 uri u ≡ get_uri2 uri' u =
      subst (λ x. get_uri2 uri x ≡ get_uri2 uri' u) same h in
    (append_cancel uri uri' (codes "_" ++ entry_type_name u) moved, same)
