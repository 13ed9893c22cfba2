-- ===== src/Tests/Graph.antt =====
-- The theorems on indexes and RPCs, applied to a post.
use protobuf_orm.Base.{
  ◌↔◌, ◌≢◌, arith, ℤ, ◌≡◌, ◌⊎◌, ◌&&◌, not, refl, true, false, [], ◌∷◌, none, some,
}
use protobuf_orm.Base.Result.{ok}
use protobuf_orm.Ormpb.Options.{IndexOptions, RpcOptions, has}
use protobuf_orm.Graph.Entity.{Target}
use protobuf_orm.Graph.Index.{
  ProtoIndex, parse_index, parse_ref, parse_refs, idle_options, excludes_erased,
}
use protobuf_orm.Graph.Index.Accepted.{parse_index_iff}
use protobuf_orm.Graph.Index.Laws.{IsIndexOf, without_erased, excludes_erased-parse_index}
use protobuf_orm.Graph.Rpc.{FullNames, parse_rpcs}
use protobuf_orm.Graph.Rpc.Laws.{is_asked_add, is_asked, parse_rpcs-has, parse_rpcs-parse_rpcs}
use protobuf_orm.Tests.Schema.{post, title, author}

abbrev by_author_and_title : IndexOptions
by_author_and_title = record {
  name = "by_author";
  refs =
      record { name = "author"; number = ℤ.pos 5 }
      ∷ record { name = "title"; number = ℤ.pos 2 }
      ∷ [];
  unique = true;
  immutable = false;
  hidden = false;
  includes_erased = false;
}

abbrev author_and_title : ProtoIndex Target
author_and_title = record { opts = by_author_and_title; props = author ∷ title ∷ [] }

index-parses : parse_index post.props by_author_and_title ≡ ok author_and_title
unfolding parse_index parse_refs parse_ref idle_options
index-parses = refl

parse_index_iff_example :
    (parse_index post.props by_author_and_title ≡ ok author_and_title)
    ↔ ((by_author_and_title.refs ≢ []) × IsIndexOf post.props by_author_and_title author_and_title)
parse_index_iff_example =
    parse_index_iff post.props by_author_and_title author_and_title (ground arith)

excludes_erased-parse_index_example :
    (author_and_title.opts.includes_erased ≡ false)
    ⊎ ((excludes_erased post.props author_and_title ≡ false)
        × (excludes_erased post.props (without_erased author_and_title) ≡ true))
excludes_erased-parse_index_example =
    excludes_erased-parse_index post.props by_author_and_title author_and_title index-parses

-- names as protobuf splits `blog.Post`
abbrev names : FullNames
names = record { parent = λ s. "blog"; base = λ s. "Post"; append = λ s t. t }

abbrev no_erase : RpcOptions
no_erase = record {
  disabled = false;
  crud = true;
  add = some (record { disabled = false; many = some (record { max = 0 }) });
  get = none;
  patch = none;
  erase = some (record { disabled = true });
}

parse_rpcs-has_example :
    (has (parse_rpcs names "blog.Post" no_erase).0.add
      ≡ (not no_erase.disabled && is_asked_add no_erase.crud no_erase.add))
    × (has (parse_rpcs names "blog.Post" no_erase).0.get
        ≡ (not no_erase.disabled && is_asked no_erase.crud no_erase.get))
    × (has (parse_rpcs names "blog.Post" no_erase).0.patch
        ≡ (not no_erase.disabled && is_asked no_erase.crud no_erase.patch))
    × (has (parse_rpcs names "blog.Post" no_erase).0.erase
        ≡ (not no_erase.disabled && is_asked no_erase.crud no_erase.erase))
    × ((has (parse_rpcs names "blog.Post" no_erase).0.add_many ≡ false)
        ⊎ (has (parse_rpcs names "blog.Post" no_erase).0.add ≡ true))
parse_rpcs-has_example = parse_rpcs-has names "blog.Post" no_erase

parse_rpcs-parse_rpcs_example :
    parse_rpcs names "blog.Post" (parse_rpcs names "blog.Post" no_erase).1
    ≡ parse_rpcs names "blog.Post" no_erase
parse_rpcs-parse_rpcs_example = parse_rpcs-parse_rpcs names "blog.Post" no_erase
