-- ===== src/Orm/Examples.antt =====
-- crates/sutegi-orm/src/builder.rs: a query of posts, and an update of one.
use sutegi.Base.{◌≡◌, refl, true, List, [], ◌∷◌, codes, bytes_eq}
use sutegi.Http.Parse.{is_digit, digits_value}
use sutegi.Session.{decimal, decimal_digits}
use sutegi.Orm.{pos, int, text, sqlite, postgres, ok, show_int, join_with}
use sutegi.Orm.Ident.{
  is_alphabetic, is_alphanumeric, is_word, is_plain_ident, split_dot, valid_identifier, ascii_lower,
  eq_ignore_ascii_case, valid_operator, check_ident, check_idents, check_op,
}
use sutegi.Orm.Path.{
  key, span_word, split_close, digits_u64, parse_u64, key_step, index_step, path_step, finish_path,
  path_loop, parse_json_path, pg_part, pg_json_path_array,
}
use sutegi.Orm.Predicates.{
  cmp_sql, pg_lhs, json_cmp_sql, in_sql, clause, clauses, render_predicates,
}
use sutegi.Orm.Builder.{new_query}
use sutegi.Orm.Builder.Setters
use sutegi.Orm.Builder.Render.{
  with_joins, build_from_and_joins, projection, group_sql, order_term, order_sql, count_sql,
  select_sql, build_for, build_count_for,
}
use sutegi.Orm.Builder.Methods.{QueryMethod, calls}
use sutegi.Orm.Builder.Safety.{build_for-calls}
use sutegi.Orm.Builder.Builds.{build_for-Accepted}
use sutegi.Orm.Marks.Clauses.{MarkedSql, Yields}
use sutegi.Orm.Predicates.{Sql}
use sutegi.Orm.Update
use sutegi.Orm.Update.Safety

abbrev posts : List QueryMethod
posts =
    QueryMethod.select (codes "id" ∷ codes "title" ∷ [])
    ∷ QueryMethod.filter (codes "likes") (codes ">=") (int (pos 3))
    ∷ QueryMethod.where_json (codes "meta") (codes "$.tags[0]") (codes "=") (text (codes "a'b"))
    ∷ QueryMethod.filter_in (codes "id") (int (pos 1) ∷ int (pos 2) ∷ [])
    ∷ QueryMethod.order_by (codes "id") true
    ∷ QueryMethod.limit (pos 10)
    ∷ []

build_for-calls_example :
    Yields MarkedSql (build_for postgres (calls posts (new_query (codes "posts"))))
    × Yields MarkedSql (build_count_for postgres (calls posts (new_query (codes "posts"))))
build_for-calls_example =
    build_for-calls postgres (codes "posts") posts (tt, (tt, (tt, (tt, (tt, (tt, tt))))))

shown :
    build_for postgres (calls posts (new_query (codes "posts")))
    ≡ ok (
      codes
          "SELECT id, title FROM posts WHERE likes >= ? AND meta #>> ? = ? AND id IN (?, ?) ORDER BY id DESC LIMIT 10",
      int (pos 3) ∷ text (codes "{tags,0}") ∷ text (codes "a'b") ∷ int (pos 1) ∷ int (pos 2) ∷ [],
    )
unfolding build_for select_sql render_predicates clauses clause new_query Setters.select
    Setters.filter Setters.where_json Setters.filter_in Setters.order_by Setters.set_limit
    Setters.push_pred check_ident check_idents check_op valid_identifier valid_operator
    eq_ignore_ascii_case ascii_lower split_dot is_plain_ident is_word is_alphanumeric is_alphabetic
    bytes_eq parse_json_path path_loop path_step key_step index_step span_word split_close parse_u64
    digits_u64 is_digit digits_value finish_path cmp_sql json_cmp_sql pg_lhs pg_json_path_array
    pg_part decimal decimal_digits join_with in_sql projection build_from_and_joins with_joins
    group_sql order_sql order_term count_sql show_int
shown = refl

abbrev accepted : List QueryMethod
accepted =
    QueryMethod.select (codes "id" ∷ [])
    ∷ QueryMethod.for_update
    ∷ QueryMethod.skip_locked
    ∷ QueryMethod.filter (codes "p.likes") (codes "like") (int (pos 3))
    ∷ QueryMethod.where_json (codes "meta") (codes "$.a") (codes "=") (int (pos 1))
    ∷ []

likes_operator : valid_operator (codes "like") ≡ true
unfolding valid_operator eq_ignore_ascii_case ascii_lower bytes_eq
likes_operator = refl

equals_operator : valid_operator (codes "=") ≡ true
unfolding valid_operator eq_ignore_ascii_case ascii_lower bytes_eq
equals_operator = refl

parsed : parse_json_path (codes "$.a") ≡ ok (key (codes "a") ∷ [])
unfolding parse_json_path path_loop path_step key_step span_word finish_path is_word is_alphanumeric
    is_alphabetic
parsed = refl

valid_names :
    (valid_identifier (codes "posts") ≡ true)
    × (valid_identifier (codes "id") ≡ true)
    × (valid_identifier (codes "p.likes") ≡ true)
    × (valid_identifier (codes "meta") ≡ true)
unfolding valid_identifier split_dot is_plain_ident is_word is_alphanumeric is_alphabetic bytes_eq
valid_names = (refl, refl, refl, refl)

build_for-Accepted_example :
    (s : Sql) × (build_for sqlite (calls accepted (new_query (codes "posts"))) ≡ ok s)
build_for-Accepted_example = build_for-Accepted sqlite (codes "posts") accepted valid_names.0 (
  (valid_names.1, tt),
  (
    tt,
    (
      refl,
      (
        (valid_names.2, likes_operator),
        ((valid_names.3, equals_operator, (key (codes "a") ∷ [], parsed)), tt),
      ),
    ),
  ),
)

abbrev edit : List Safety.UpdateMethod
edit =
    Safety.UpdateMethod.set (codes "title") (text (codes "it's"))
    ∷ Safety.UpdateMethod.filter (codes "id") (codes "=") (int (pos 7))
    ∷ Safety.UpdateMethod.returning (codes "id" ∷ [])
    ∷ []

build-calls_example :
    Yields MarkedSql (Update.build (Safety.calls edit (Update.new (codes "posts"))))
build-calls_example = Safety.build-calls (codes "posts") edit (tt, (tt, (tt, tt)))
