-- ===== src/Mcp/Resources.antt =====
-- src/mcp/ResourceRegistry.{h,cpp}. A handler is a function of the URI and of the world.
use edge_llm.Base.{
  ℕ, zero, suc, Bool, false, Option, none, some, List, [], ◌∷◌, Bytes, bytes, beq, if◌then◌else◌,
}
use edge_llm.Core.{Error, Result}

pub record Resource (W : Type 0) : Type 0 where
  pub uri : Bytes
  pub name : Bytes
  pub description : Bytes
  pub mime_type : Bytes
  pub is_blob : Bool
  pub on_read : Option (Bytes → W → W × Result Bytes)

module _ {W : Type 0} where
  abbrev pub new_resource : Bytes → Bytes → Resource W
  new_resource uri name = record {
    uri = uri;
    name = name;
    description = [];
    mime_type = bytes "text/plain";
    is_blob = false;
    on_read = none;
  }

  -- The methods of the builder, on its resource.
  unfoldable pub described : Bytes → Resource W → Resource W
  described text r = record r { description = text }

  unfoldable pub of_mime_type : Bytes → Resource W → Resource W
  of_mime_type mime r = record r { mime_type = mime }

  unfoldable pub blob : Bool → Resource W → Resource W
  blob value r = record r { is_blob = value }

  unfoldable pub set_on_read : Option (Bytes → W → W × Result Bytes) → Resource W → Resource W
  set_on_read handler r = record r { on_read = handler }

  -- A known URI is redefined in place, another one is added; the second result is the index.
  unfoldable pub add_resource : Bytes → Bytes → List (Resource W) → List (Resource W) × ℕ
  add_resource uri name [] = (new_resource uri name ∷ [], zero)
  add_resource uri name (r ∷ rs) =
      let (rest, i) = add_resource uri name rs in
      if beq r.uri uri then (new_resource uri name ∷ rs, zero) else (r ∷ rest, suc i)

  unfoldable pub find_resource : Bytes → List (Resource W) → Option (Resource W)
  find_resource uri [] = none
  find_resource uri (r ∷ rs) =
      let rest = find_resource uri rs in if beq r.uri uri then some r else rest

  abbrev pub read_by : Option (Bytes → W → W × Result Bytes) → Bytes → W → W × Result Bytes
  read_by none uri w = (w, Result.fail Error.invalid_state)
  read_by (some handler) uri w = handler uri w

  abbrev pub read_found : Option (Resource W) → Bytes → W → W × Result Bytes
  read_found none uri w = (w, Result.fail Error.not_found)
  read_found (some r) uri w = read_by r.on_read uri w

  unfoldable pub read_resource : List (Resource W) → Bytes → W → W × Result Bytes
  unfolding find_resource
  read_resource rs uri w = read_found (find_resource uri rs) uri w
