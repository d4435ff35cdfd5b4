-- ===== src/Api/Answers/Requests.antt =====
-- Every request is answered, for supabase/functions/api/index.ts.
