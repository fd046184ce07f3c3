-- ===== src/Tests/Requests.antt =====
-- A table with one string field `a` of three bytes, and a client that asks for it and is told of it.
use stoxdb.Prelude.{
  some-inj, List, inr, zero, suc, ◌<◌, [], ◌∷◌, ◌++◌, map, false, ◌≡◌, refl, some, none, subst,
  arith,
}
use stoxdb.Prelude.Int.{ℤ, pos, negsuc}
use stoxdb.Outcome.{ok, ◌>>=◌, Post, if_both}
use stoxdb.Base.{Bytes, same, strsplit, strsplit_loop, trim, tolower, drop_spaces, lower_char}
use stoxdb.Base.Bytes.{setint, setchar, le_bytes, of_word, to_word}
use stoxdb.Expression.{kint2, kchar, kname, keq, ordinal, is_kind}
use stoxdb.Logical.{Logical}
use stoxdb.Meta.{Field, Meta, getid, find_id}
use stoxdb.Record.Request.{Request, parse_get_request}
use stoxdb.Record.Link.{change_fname_to_fid}
use stoxdb.Record.Link.Resolved.{Indexed, AreResolved, change_fname_to_fid-Resolved}
use stoxdb.Record.Reply.{put_field_to_buffer}
use stoxdb.Record.Reply.Columns.{shown, column_loop-put_field_to_buffer}
use stoxdb.Client
use stoxdb.Client.{Client, update_fields, find_simple, map_fields, set_request_header}
use stoxdb.Client.Column.{column_loop}
use stoxdb.Client.Get.{
  Query, get, get_request, send_get, get_fields, choose_fields, get_keys, parse_order, order_key,
  write_get, write_list, collect, field_id, parse_segment, short_key, skip_blanks, until_blank,
  write_items,
}
use stoxdb.Client.Get.Sent.{get-parse_get_request}
use stoxdb.Client.Update.{int_item, int_of, kind_bytes, is_int_kind}
use stoxdb.Client.Update.Items.{told, HasPlace, HavePlaces, Sets, setvalue-Sets}
use stoxdb.Tests.{sample}

abbrev pub text_column : Field ℤ
text_column = record {
  name = b'a' ∷ [];
  type = kchar;
  note = [];
  formula = [];
  decide = [];
  offset = 0;
  size = 5;
  rtype = [];
  rform = [];
}

abbrev pub table : Meta ℤ
table = record {
  port = 80;
  dump_file = [];
  magic_number = 7;
  max_recv_size = 8192;
  max_connections = 3;
  idle_timeout = 60;
  transport_timeout = 10;
  record_size = 5;
  fields = text_column ∷ [];
  fname_id = (b'a' ∷ [], 0) ∷ [];
}

abbrev pub asker : Client ℤ
asker = record { magic = pos 7; fname_map = []; fields = [] }

abbrev query : Query
query = record {
  fields = b'*' ∷ [];
  keys = b'k' ∷ [];
  where_text = [];
  order = b'a' ∷ b' ' ∷ b'd' ∷ b'e' ∷ b's' ∷ b'c' ∷ [];
  offset = pos 0;
  size = negsuc 0;
}

abbrev query_header : Bytes
query_header = 7 ∷ 0 ∷ 0 ∷ 0 ∷ 24 ∷ 0 ∷ 0 ∷ 0 ∷ 12 ∷ 0 ∷ 0 ∷ 0 ∷ []

abbrev query_body : Bytes
query_body =
    1 ∷ 0 ∷ 0 ∷ 0 ∷ 1 ∷ 0 ∷ 1 ∷ 0 ∷ b'k' ∷ 0 ∷ 0 ∷ 1 ∷ 0 ∷ 0 ∷ 0 ∷ 2 ∷ 0 ∷ 0 ∷ 0 ∷ 0 ∷ 255 ∷ 255
    ∷ 255 ∷ 255 ∷ []

query_sent :
    get (update_fields asker (text_column ∷ [])) 8192 query ≡ ok (some (query_header ++ query_body))
unfolding get send_get stoxdb.Client.getid get_request get_fields choose_fields same update_fields
    get_keys strsplit strsplit_loop trim parse_order tolower order_key write_get write_list setint
    setchar le_bytes of_word to_word drop_spaces lower_char collect field_id parse_segment short_key
    skip_blanks until_blank write_items find_simple map_fields set_request_header
query_sent = refl

get-parse_get_request_example :
    (r : Request) × (get_request (update_fields asker (text_column ∷ [])) query ≡ some r)
    × (parse_get_request 1 (query_header ++ query_body) 36 ≡ ok r)
get-parse_get_request_example =
    get-parse_get_request asker (text_column ∷ []) 8192 query (omega arith) (omega arith)
      (omega arith, omega arith, omega arith) query_sent

column_loop-put_field_to_buffer_example :
    (put_field_to_buffer table >>= column_loop 1) ≡ ok (shown text_column ∷ [])
column_loop-put_field_to_buffer_example =
    column_loop-put_field_to_buffer table (omega arith, omega arith, omega arith, tt)

table-Indexed : Indexed table
unfolding getid find_id
table-Indexed name id =
    if_both (λ o. o ≡ some id → id < 1) (same (b'a' ∷ []) name) (λ _ e. ground (arith, e))
      (λ _ e. absurd (cc))

abbrev condition : Logical ℤ
condition =
    record {
      type = keq;
      extype = none;
      like_start = false;
      like_end = false;
      left = sample kname ∷ [];
      right = sample kchar ∷ [];
    }
    ∷ []

change_fname_to_fid-Resolved_example :
    Post (AreResolved table) (change_fname_to_fid table condition)
change_fname_to_fid-Resolved_example = change_fname_to_fid-Resolved table table-Indexed condition

abbrev pub number_column : Field ℤ
number_column = record text_column { name = b'n' ∷ []; type = kint2; offset = 5; size = 2 }

abbrev pub columns : List (Field ℤ)
columns = text_column ∷ number_column ∷ []

columns-HavePlaces : HavePlaces columns 7
unfolding is_kind is_int_kind ordinal
columns-HavePlaces zero f e =
    subst (HasPlace 7 0) (some-inj e)
      (omega arith, omega arith, omega arith, λ _. omega arith, λ k. absurd (cc))
columns-HavePlaces (suc zero) f e =
    subst (HasPlace 7 1) (some-inj e)
      (omega arith, omega arith, omega arith, λ k. absurd (cc), λ _. refl)
columns-HavePlaces (suc (suc i)) f e = absurd (cc)

number_handed :
    int_item (update_fields asker (map told columns)) (b'n' ∷ []) (pos 300)
    ≡ some (4, 1 ∷ 0 ∷ 44 ∷ 1 ∷ [])
unfolding int_item int_of kind_bytes stoxdb.Client.getid update_fields same is_kind setint
    is_int_kind
number_handed = refl

setvalue-Sets_example : Sets columns 7 columns-HavePlaces (4, 1 ∷ 0 ∷ 44 ∷ 1 ∷ [])
setvalue-Sets_example =
    setvalue-Sets columns 7 columns-HavePlaces asker (b'n' ∷ []) (inr (pos 300, number_handed))
