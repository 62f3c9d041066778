-- ===== src/Router/Table/Fresh.antt =====
-- One route in an empty tree is found under every path that fills it in.
use async_uv.Base.{
  ℕ, zero, suc, ◌≤◌, ◌≡◌, refl, some, List, [], ◌∷◌, ◌++◌, arith, length, drop, All, map, subst,
  sym, ap, ◌∙◌, append-nil, append_assoc, length-append,
}
use async_uv.Base.Bytes.{Bytes}
use async_uv.Router.Node.{
  NodeType, static, param, parse_param_segment, RouterNode, node, nil, new_node, children_of,
  handlers_of,
}
use async_uv.Router.Matching.{Captures, arrived, walk, descend, handler_for, match}
use async_uv.Router.Matching.Rounds.{walk-descend, match_from-walk, handler_for-single}
use async_uv.Router.Table.{register, add_segments}
use async_uv.Router.Table.Pieces.{
  Piece, fixed, filled, segment_of, text_of, IsSegment, IsPiece, path_of, captures_of,
  length-segment,
}
use async_uv.Router.Table.Grown.{
  over, register-empty, descend-fixed, descend-filled, add_fixed, add_filled, grown, grown-node,
}

module _ {H : Type 0} where
  -- Where the walk ends: with the piece's captures, at a node that has the handler only.
  Arrives : ℕ → RouterNode H → Bytes → Captures → Captures → Bytes → H → Type 0
  Arrives fuel n path params captured method h =
      (m : RouterNode H) × (walk fuel n path params ≡ arrived m (params ++ captured))
      × (handlers_of m ≡ (method, h) ∷ [])

  Arrives-step :
      (fuel : ℕ) (n : RouterNode H) (s rest : Bytes) (child : RouterNode H)
      (params params' captured captured' : Captures) (method : Bytes) (h : H)
      → IsSegment s
      → descend n (s ++ rest) params ≡ some (child, rest, params')
      → params' ++ captured' ≡ params ++ captured
      → Arrives fuel child rest params' captured' method h
      → Arrives (suc fuel) n (s ++ rest) params captured method h
  unfolding Arrives
  Arrives-step fuel n [] rest child params params' captured captured' method h seg d q a =
      absurd (seg.0 refl)
  Arrives-step fuel n (c ∷ s) rest child params params' captured captured' method h seg d q
        (m, w, e) =
      (
        m,
        walk-descend fuel n c (s ++ rest) params child rest params' seg.1.0 d
            ∙ w
            ∙ ap (λ x. arrived m x) q,
        e,
      )

  Arrives-slash :
      (fuel : ℕ) (n : RouterNode H) (s : Bytes) (params captured : Captures) (method : Bytes)
      (h : H)
      → Arrives fuel n s params captured method h
      → Arrives (suc fuel) n (b'/' ∷ s) params captured method h
  unfolding Arrives walk
  Arrives-slash fuel n s params captured method h a = a

  Arrives-fixed :
      (fuel : ℕ) (s : Bytes) (pieces : List Piece) (prefix : Bytes) (t : NodeType) (name : Bytes)
      (params : Captures) (method : Bytes) (h : H)
      → IsPiece (fixed s)
      → Arrives fuel
          (grown pieces method h (new_node s static []))
          (path_of (map text_of pieces))
          params
          (captures_of pieces)
          method
          h
      → Arrives
          (suc (suc fuel))
          (grown (fixed s ∷ pieces) method h (node prefix t name nil []))
          (b'/' ∷ (s ++ path_of (map text_of pieces)))
          params
          (captures_of pieces)
          method
          h
  Arrives-fixed fuel s pieces prefix t name params method h ok a =
      let rest = path_of (map text_of pieces) in
      let child = grown pieces method h (new_node s static []) in
      let tree =
        add_fixed s (map segment_of pieces) (register method h) prefix t name ok.0.0 ok.1 in
      let fits : descend (over prefix t name child) (s ++ rest) params
          ≡ some (child, rest, params) =
        subst (λ ch. descend (over prefix t name ch) (s ++ rest) params ≡ some (ch, rest, params))
          (sym (grown-node pieces method h s static []))
          (descend-fixed prefix t name s rest [] (children_of child) (handlers_of child) params) in
      subst
        (λ n. Arrives (suc (suc fuel)) n (b'/' ∷ (s ++ rest)) params (captures_of pieces) method h)
        (sym tree)
        (Arrives-slash (suc fuel) (over prefix t name child) (s ++ rest) params (captures_of pieces)
          method h
          (Arrives-step fuel (over prefix t name child) s rest child params params
            (captures_of pieces) (captures_of pieces) method h ok.0 fits refl a))

  Arrives-filled :
      (fuel : ℕ) (s text : Bytes) (pieces : List Piece) (prefix : Bytes) (t : NodeType)
      (name : Bytes) (params : Captures) (method : Bytes) (h : H)
      → let nm = (parse_param_segment s).1 in
        IsPiece (filled s text)
        → Arrives fuel
            (grown pieces method h (new_node [] param nm))
            (path_of (map text_of pieces))
            (params ++ (nm, text) ∷ [])
            (captures_of pieces)
            method
            h
        → Arrives
            (suc (suc fuel))
            (grown (filled s text ∷ pieces) method h (node prefix t name nil []))
            (b'/' ∷ (text ++ path_of (map text_of pieces)))
            params
            ((nm, text) ∷ captures_of pieces)
            method
            h
  Arrives-filled fuel s text pieces prefix t name params method h ok a =
      let nm = (parse_param_segment s).1 in
      let rest = path_of (map text_of pieces) in
      let child = grown pieces method h (new_node [] param nm) in
      let more = params ++ (nm, text) ∷ [] in
      let captured = (nm, text) ∷ captures_of pieces in
      let tree =
        add_filled s (map segment_of pieces) (register method h) prefix t name ok.0.0 ok.2 in
      let fits : descend (over prefix t name child) (text ++ rest) params
          ≡ some (child, rest, more) =
        subst (λ ch. descend (over prefix t name ch) (text ++ rest) params ≡ some (ch, rest, more))
          (sym (grown-node pieces method h [] param nm))
          (descend-filled prefix t name text (map text_of pieces) [] nm (children_of child)
            (handlers_of child) params ok.1) in
      subst (λ n. Arrives (suc (suc fuel)) n (b'/' ∷ (text ++ rest)) params captured method h)
        (sym tree)
        (Arrives-slash (suc fuel) (over prefix t name child) (text ++ rest) params captured method h
          (Arrives-step fuel (over prefix t name child) text rest child params more captured
            (captures_of pieces) method h ok.1 fits
            (append_assoc params ((nm, text) ∷ []) (captures_of pieces)) a))

  Arrives-fresh :
      (fuel : ℕ) (pieces : List Piece) (prefix : Bytes) (t : NodeType) (name : Bytes)
      (params : Captures) (method : Bytes) (h : H)
      → All IsPiece pieces
      → length (path_of (map text_of pieces)) ≤ fuel
      → Arrives fuel
          (grown pieces method h (node prefix t name nil []))
          (path_of (map text_of pieces))
          params
          (captures_of pieces)
          method
          h
  unfolding add_segments Arrives walk
  Arrives-fresh fuel [] prefix t name params method h ok le = (
    node prefix t name nil ((method, h) ∷ []),
    ap (λ r. arrived r.0 params) (register-empty method h prefix t name)
        ∙ ap (λ x. arrived (node prefix t name nil ((method, h) ∷ [])) x) (sym (append-nil params)),
    refl,
  )
  Arrives-fresh zero (fixed s ∷ pieces) prefix t name params method h ok le =
      absurd (omega (arith, le))
  Arrives-fresh (suc zero) (fixed s ∷ pieces) prefix t name params method h ok le =
      absurd
        (omega (arith, le, length-segment s ok.0.0, length-append s (path_of (map text_of pieces))))
  Arrives-fresh (suc (suc fuel)) (fixed s ∷ pieces) prefix t name params method h ok le =
      let size = length-append s (path_of (map text_of pieces)) in
      Arrives-fixed fuel s pieces prefix t name params method h ok.0 (
        Arrives-fresh fuel pieces s static [] params method h ok.1
          (omega (arith, le, size, length-segment s ok.0.0)))
  Arrives-fresh zero (filled s text ∷ pieces) prefix t name params method h ok le =
      absurd (omega (arith, le))
  Arrives-fresh (suc zero) (filled s text ∷ pieces) prefix t name params method h ok le = absurd (
      omega
        (arith, le, length-segment text ok.0.1, length-append text (path_of (map text_of pieces))))
  Arrives-fresh (suc (suc fuel)) (filled s text ∷ pieces) prefix t name params method h ok le =
      let size = length-append text (path_of (map text_of pieces)) in
      Arrives-filled fuel s text pieces prefix t name params method h ok.0 (
        Arrives-fresh fuel pieces [] param (parse_param_segment s).1
          (params ++ ((parse_param_segment s).1, text) ∷ []) method h ok.1
          (omega (arith, le, size, length-segment text ok.0.1)))

  Arrives-tail :
      (fuel : ℕ) (n : RouterNode H) (s : Bytes) (params captured : Captures) (method : Bytes)
      (h : H)
      → Arrives (suc fuel) n (b'/' ∷ s) params captured method h
      → Arrives fuel n s params captured method h
  unfolding Arrives walk
  Arrives-tail fuel n s params captured method h a = a

  match-Arrives :
      (n : RouterNode H) (path : Bytes) (captured : Captures) (method : Bytes) (h : H)
      → Arrives (length path) n path [] captured method h
      → match method path n ≡ some (h, captured)
  unfolding Arrives match
  match-Arrives n path captured method h (m, w, e) =
      match_from-walk (length path) method path n m captured h w
        (subst (λ hs. handler_for method hs ≡ some h) (sym e) (handler_for-single method h))

  -- A tree with one route, of text segments and parameters, finds the handler for every path that
  -- has the same texts and any text for each parameter, and reports those texts under the
  -- parameters' names, in order. The path stands without the slash in front.
  pub match-fresh :
      (piece : Piece) (pieces : List Piece) (method : Bytes) (h : H)
      → All IsPiece (piece ∷ pieces)
      → let tree =
          (add_segments
            (map segment_of (piece ∷ pieces))
            (register method h)
            (new_node [] static [])).0 in
        match method (drop 1 (path_of (map text_of (piece ∷ pieces)))) tree
        ≡ some (h, captures_of (piece ∷ pieces))
  match-fresh piece pieces method h ok =
      let tree = grown (piece ∷ pieces) method h (new_node [] static []) in
      let path = text_of piece ++ path_of (map text_of pieces) in
      let captured = captures_of (piece ∷ pieces) in
      match-Arrives tree path captured method h (
        Arrives-tail (length path) tree path [] captured method h (
          Arrives-fresh (suc (length path)) (piece ∷ pieces) [] static [] [] method h ok
            (omega arith)))
