-- ===== src/Tests/Calls.antt =====
-- The call resolver at two files, the second of which imports and calls functions of the first.
use ai_powered_github_pr_rev.Prelude.{◌≡◌, false, none, some, List, [], ◌∷◌, All, arith}
use ai_powered_github_pr_rev.Prelude.Equality.{text_equality}
use ai_powered_github_pr_rev.Graph.CallResolver.{
  CallResolverSymbol, CallResolverFileInput, function, resolved, is_callable,
}
use ai_powered_github_pr_rev.Graph.CallResolver.Index.{
  build_name_index, candidates_for_name, index_symbol,
}
use ai_powered_github_pr_rev.Graph.CallResolver.Index.Laws.{candidates-build_name_index}
use ai_powered_github_pr_rev.Graph.CallResolver.Sites.{
  CallSiteContext, resolve_call_site, resolve_calls,
}
use ai_powered_github_pr_rev.Graph.CallResolver.Sites.Edges.{
  IsSiteResult, resolve_call_site-IsSiteResult, IsEdge, resolve_calls-IsEdge,
}

abbrev format_symbol : CallResolverSymbol
format_symbol = record { id = "s1"; name = "format"; kind = function; parent_symbol = none }

abbrev main_symbol : CallResolverSymbol
main_symbol = record { id = "s2"; name = "main"; kind = function; parent_symbol = none }

abbrev format_file : CallResolverFileInput
format_file = record {
  file_path = "src/format.ts";
  package_name = none;
  symbols = format_symbol ∷ [];
  parsed_symbols = record { kind = function; parent_symbol = none; calls = [] } ∷ [];
  imports = [];
  import_resolutions = λ specifier. none;
}

abbrev main_file : CallResolverFileInput
main_file = record {
  file_path = "src/main.ts";
  package_name = none;
  symbols = main_symbol ∷ [];
  parsed_symbols =
      record {
        kind = function;
        parent_symbol = none;
        calls =
            record { name = "format"; receiver = none }
            ∷ record { name = "main"; receiver = none }
            ∷ [];
      }
      ∷ [];
  imports =
      record {
        specifier = "./format.js";
        is_type_only = false;
        named = "format" ∷ [];
        default = none;
        namespace = none;
      }
      ∷ [];
  import_resolutions = λ specifier. some (resolved "src/format.ts");
}

abbrev two_files : List CallResolverFileInput
two_files = format_file ∷ main_file ∷ []

abbrev format_call : CallSiteContext
format_call = record {
  file = main_file;
  caller_symbol_id = "s2";
  caller_class_name = none;
  call_name = "format";
  receiver = none;
}

candidates-build_name_index_example :
    candidates_for_name (build_name_index two_files false) "" "format"
    ≡ index_symbol format_file format_symbol ∷ []
unfolding is_callable
candidates-build_name_index_example = candidates-build_name_index two_files false "" "format"

resolve_call_site-IsSiteResult_example :
    IsSiteResult two_files format_call
      (resolve_call_site format_call two_files (build_name_index two_files false) false)
resolve_call_site-IsSiteResult_example =
    resolve_call_site-IsSiteResult two_files format_call false (λ test t. ground (arith, t))

resolve_calls-IsEdge_example : All (IsEdge two_files) (resolve_calls two_files false).edges
resolve_calls-IsEdge_example = resolve_calls-IsEdge two_files false
